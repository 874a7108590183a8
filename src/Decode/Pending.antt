-- ===== src/Decode/Pending.antt =====
-- The names that the decoder holds, against the wire events of one pid.
use fuddy_duddy.Prelude.{
  ◌≡◌, refl, sym, ◌∙◌, ap, false, Option, none, some, List, [], ◌∷◌, ◌++◌, ◌==◌, nat_eq, list_eq,
  arith, All, if◌then◌else◌, append_assoc,
}
use fuddy_duddy.Int.{ℤ, int_eq}
use fuddy_duddy.Text.{Str}
use fuddy_duddy.Dict.{lookup, insert, erase}
use fuddy_duddy.Dict.Laws.{lookup-insert, lookup-erase, lookup-insert_self}
use fuddy_duddy.Event.{syscall}
use fuddy_duddy.Model.Frame.{Avoids}
use fuddy_duddy.Wire.{WireEvent, WireEnter, WireExit}
use fuddy_duddy.Decode.{Decoder, name_of, enter_event, exit_event, pending_name, push, push_all}

-- The wire event is not about the process `k`.
abbrev pub WireAvoids : ℤ → WireEvent → Type 0
WireAvoids k (WireEvent.enter e) = (e.pid == k) ≡ false
WireAvoids k (WireEvent.exit e) = (e.pid == k) ≡ false
WireAvoids k (WireEvent.exited e) = (e.pid == k) ≡ false
WireAvoids k (WireEvent.signaled e) = (e.pid == k) ≡ false
WireAvoids k (WireEvent.spawn e) = ((e.pid == k) ≡ false) × ((e.child == k) ≡ false)

-- The name of the syscall that a pid has entered and not left, as one pid's events tell it.
unfoldable pub open_name : ℤ → Option Str → List WireEvent → Option Str
open_name k name [] = name
open_name k name (WireEvent.enter e ∷ es) =
    open_name k (if e.pid == k then some (name_of e.nr) else name) es
open_name k name (WireEvent.exit e ∷ es) = open_name k (if e.pid == k then none else name) es
open_name k name (WireEvent.exited e ∷ es) = open_name k (if e.pid == k then none else name) es
open_name k name (WireEvent.signaled e ∷ es) = open_name k (if e.pid == k then none else name) es
open_name k name (WireEvent.spawn e ∷ es) = open_name k name es

-- After any wire events, what the decoder holds for a pid is the name of the last ENTER of the pid
-- if no EXIT, EXITED or SIGNALED of the pid came after it, nothing if one came, and what it held
-- at the start if none of the events is of this kind.
pub pending_is_open :
    (k : ℤ) (es : List WireEvent) (d : Decoder)
    → lookup k (push_all es d).1 ≡ open_name k (lookup k d) es
unfolding push_all push open_name
pending_is_open k [] d = refl
pending_is_open k (WireEvent.enter e ∷ es) d =
    pending_is_open k es (insert e.pid (name_of e.nr) d)
    ∙ ap (λ o. open_name k o es) (lookup-insert e.pid k (name_of e.nr) d)
pending_is_open k (WireEvent.exit e ∷ es) d =
    pending_is_open k es (erase e.pid d) ∙ ap (λ o. open_name k o es) (lookup-erase e.pid k d)
pending_is_open k (WireEvent.exited e ∷ es) d =
    pending_is_open k es (erase e.pid d) ∙ ap (λ o. open_name k o es) (lookup-erase e.pid k d)
pending_is_open k (WireEvent.signaled e ∷ es) d =
    pending_is_open k es (erase e.pid d) ∙ ap (λ o. open_name k o es) (lookup-erase e.pid k d)
pending_is_open k (WireEvent.spawn e ∷ es) d = pending_is_open k es d

open_name-avoids :
    (k : ℤ) (name : Option Str) (es : List WireEvent)
    → All (WireAvoids k) es
    → open_name k name es ≡ name
unfolding open_name
open_name-avoids k name [] _ = refl
open_name-avoids k name (WireEvent.enter e ∷ es) (h, hs) = rw h (open_name-avoids k name es hs)
open_name-avoids k name (WireEvent.exit e ∷ es) (h, hs) = rw h (open_name-avoids k name es hs)
open_name-avoids k name (WireEvent.exited e ∷ es) (h, hs) = rw h (open_name-avoids k name es hs)
open_name-avoids k name (WireEvent.signaled e ∷ es) (h, hs) = rw h (open_name-avoids k name es hs)
open_name-avoids k name (WireEvent.spawn e ∷ es) (h, hs) = open_name-avoids k name es hs

-- Events of other pids decode to events of other pids.
pub push_all-Avoids :
    (k : ℤ) (es : List WireEvent) (d : Decoder)
    → All (WireAvoids k) es
    → All (Avoids k) (push_all es d).0
unfolding push_all push
push_all-Avoids k [] d _ = tt
push_all-Avoids k (WireEvent.enter e ∷ es) d (h, hs) = (h, push_all-Avoids k es _ hs)
push_all-Avoids k (WireEvent.exit e ∷ es) d (h, hs) = (h, push_all-Avoids k es _ hs)
push_all-Avoids k (WireEvent.exited e ∷ es) d (h, hs) = (h, push_all-Avoids k es _ hs)
push_all-Avoids k (WireEvent.signaled e ∷ es) d (h, hs) = (h, push_all-Avoids k es _ hs)
push_all-Avoids k (WireEvent.spawn e ∷ es) d (h, hs) = (h, push_all-Avoids k es d hs)

pub push_all-append :
    (es fs : List WireEvent) (d : Decoder)
    → (push_all (es ++ fs) d).0 ≡ (push_all es d).0 ++ (push_all fs (push_all es d).1).0
unfolding push_all
push_all-append [] fs d = refl
push_all-append (e ∷ es) fs d =
    ap (λ l. (push e d).0 ++ l) (push_all-append es fs (push e d).1)
    ∙ sym (append_assoc (push e d).0 (push_all es (push e d).1).0 _)

pending_name_found :
    (k : ℤ) (name : Str) (d : Decoder) → lookup k d ≡ some name → pending_name k d ≡ name
unfolding pending_name
pending_name_found k name d h = ground arith

name_kept :
    (e : WireEnter) (others : List WireEvent) (d : Decoder)
    → All (WireAvoids e.pid) others
    → pending_name e.pid (push_all others (push (WireEvent.enter e) d).1).1 ≡ name_of e.nr
unfolding push
name_kept e others d avoid = pending_name_found e.pid (name_of e.nr) _ (
    pending_is_open e.pid others (insert e.pid (name_of e.nr) d)
    ∙ ap (λ o. open_name e.pid o others) (lookup-insert_self e.pid (name_of e.nr) d)
    ∙ open_name-avoids e.pid (some (name_of e.nr)) others avoid)

-- With only wire events about other pids between the wire ENTER and EXIT of a pid, the decoder
-- gives the EXIT the name of the ENTER, and decodes the events in between as it would without the
-- EXIT.
pub exit_named :
    (e : WireEnter) (x : WireExit) (others : List WireEvent) (d : Decoder)
    → x.pid ≡ e.pid
    → All (WireAvoids e.pid) others
    → (push_all ((WireEvent.enter e ∷ others) ++ WireEvent.exit x ∷ []) d).0
      ≡ (syscall (enter_event e) ∷ (push_all others (push (WireEvent.enter e) d).1).0)
        ++ syscall (exit_event x (name_of e.nr)) ∷ []
unfolding push_all push
exit_named e x others d same avoid =
    push_all-append (WireEvent.enter e ∷ others) (WireEvent.exit x ∷ []) d
    ∙ ap
        (λ name.
          (syscall (enter_event e) ∷ (push_all others (push (WireEvent.enter e) d).1).0)
          ++ syscall (exit_event x name) ∷ [])
        (ap (λ k. pending_name k (push_all others (push (WireEvent.enter e) d).1).1) same
          ∙ name_kept e others d avoid)
