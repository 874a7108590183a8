-- ===== src/Live/Pump.antt =====
-- What a sequence of lines does to the decoder and to the director.
use fuddy_duddy.Prelude.{◌≡◌, refl, sym, ◌∙◌, ap, List, [], ◌∷◌, ◌++◌, append-nil, append_assoc}
use fuddy_duddy.Text.{Str}
use fuddy_duddy.Text.Split.{split}
use fuddy_duddy.Text.Strip.{strip}
use fuddy_duddy.Text.Strip.Laws.{split-strip}
use fuddy_duddy.Event.{Event}
use fuddy_duddy.Wire.{WireEvent, Result, ok, err}
use fuddy_duddy.Wire.Parse.{parse_tokens, parse_line}
use fuddy_duddy.Decode.{push, push_all}
use fuddy_duddy.Director.{Director, feed}
use fuddy_duddy.Live.{LiveCollector, feed_all, pump_event, pump_stripped, pump}

-- The wire events of the lines that parse.
abbrev pub when_ok : Result WireEvent → List WireEvent → List WireEvent
when_ok (err _) ws = ws
when_ok (ok wire) ws = wire ∷ ws

abbrev pub wires : List Str → List WireEvent
wires [] = []
wires (line ∷ lines) = when_ok (parse_line line) (wires lines)

pub wires-append : (ls ms : List Str) → wires (ls ++ ms) ≡ wires ls ++ wires ms
wires-append [] ms = refl
wires-append (l ∷ ls) ms = ap (when_ok (parse_line l)) (wires-append ls ms) ∙ out (parse_line l)
  where
    out : (r : _) → when_ok r (wires ls ++ wires ms) ≡ when_ok r (wires ls) ++ wires ms
    out (err _) = refl
    out (ok w) = refl

parse_line-strip : (line : Str) → parse_line (strip line) ≡ parse_line line
unfolding parse_line
parse_line-strip line = ap parse_tokens (split-strip line)

-- The test for an empty line takes nothing away: an empty line does not parse.
pump_stripped_lem :
    (line : Str) (c : LiveCollector) → pump_stripped line c ≡ pump_event (parse_line line) c
unfolding pump_stripped pump_event parse_line parse_tokens split fuddy_duddy.Text.Split.split_by
    fuddy_duddy.Text.Split.non_empty
pump_stripped_lem [] c = refl
pump_stripped_lem (x ∷ line) c = refl

feed_all_lem : (es : List Event) (q : Director) → feed_all es q ≡ record q { queue = q.queue ++ es }
unfolding feed_all feed
feed_all_lem [] q = ap (λ es. record q { queue = es }) (sym (append-nil q.queue))
feed_all_lem (e ∷ es) q =
    feed_all_lem es (feed e q)
    ∙ ap (λ fs. record q { queue = fs }) (append_assoc q.queue (e ∷ []) es)

-- What the wire events do.
abbrev pub behind : List WireEvent → LiveCollector → LiveCollector
behind ws c = record {
  decoder = (push_all ws c.decoder).1;
  director = record c.director { queue = c.director.queue ++ (push_all ws c.decoder).0 };
}

behind-pump_event :
    (r : Result WireEvent) (ws : List WireEvent) (c : LiveCollector)
    → behind ws (pump_event r c) ≡ behind (when_ok r ws) c
unfolding pump_event push_all
behind-pump_event (err _) ws c = refl
behind-pump_event (ok wire) ws c =
    let (es, d) = push wire c.decoder in
    ap (λ q. behind ws (record { decoder = d; director = q })) (feed_all_lem es c.director)
    ∙ ap
        (λ es'. record {
          decoder = (push_all ws d).1;
          director = record c.director { queue = es' };
        })
        (append_assoc c.director.queue es (push_all ws d).0)

-- Whatever lines are read, the live collector's decoder is then the one that the wire events of
-- the lines that parse lead to, in their order, and its director has the events decoded from them
-- behind what was queued, with its last release as before; the other lines, empty lines and the
-- white space around a line change nothing.
pub pump_decodes : (lines : List Str) (c : LiveCollector) → pump lines c ≡ behind (wires lines) c
unfolding pump push_all
pump_decodes [] c =
    ap (λ es. record c { director = record c.director { queue = es } })
      (sym (append-nil c.director.queue))
pump_decodes (line ∷ lines) c =
    pump_decodes lines (pump_stripped (strip line) c)
    ∙ ap (behind (wires lines))
        (pump_stripped_lem (strip line) c ∙ ap (λ r. pump_event r c) (parse_line-strip line))
    ∙ behind-pump_event (parse_line line) (wires lines) c
