-- ===== src/Scene/Draw.antt =====
-- The commands of a frame, scene.py: each layer of `render` is the list of the commands that it appends.
use mathlib.Core.Option
use fuddy_duddy.Prelude.{
  ℕ, ◌+◌, ◌-◌, ◌*◌, ◌/◌, ◌%◌, Bool, true, false, ◌&&◌, ◌||◌, Option, none, some, List, [], ◌∷◌,
  ◌++◌, ltb, ◌==◌, nat_eq, take, if◌then◌else◌,
}
use fuddy_duddy.Int.{ℤ, pos, is_negative, int_eq, ◌+ℤ◌, ◌-ℤ◌, minus, int_leb, sort_ints}
use fuddy_duddy.Text.{codes, print_ℤ}
use fuddy_duddy.Dict.{Dict, lookup, keys}
use fuddy_duddy.Floats.{Floats}
use fuddy_duddy.Model.{Fd, Process, World}
use fuddy_duddy.Model
use fuddy_duddy.Render.{width, height, boundary_y, zone_order, Command, rect, line, circle, text}
use fuddy_duddy.Scene.Layout.{Box, box_pids, box_rect, layout}
use fuddy_duddy.Scene.State.{
  PulseState, Split, Pulse, Scene, result_color, or_zero, col_dim, col_pulse, origin_y, rest_y,
  split_ttl,
}
use fuddy_duddy.Scene.Layers.{
  col_kernel_bg, col_name, fail_result_ttl, status_ttl, dash, bob, centered, dashes, draw_zone_list,
  region_blocks, draw_box, draw_fd_bar, draw_rings,
}

module _ (F : Floats) where
  open F use {Float, of_int, add, sub, mul, div, lt, le, trunc, round}

  -- Scene._draw_status
  unfoldable pub draw_status : Scene F → List Command
  draw_status s = elim s.status_msg [
    | none ↦ []
    | some msg ↦
        if ltb (s.status_since + status_ttl) s.frame
        then []
        else text (pos 4) (pos 2) (take 62 msg) s.status_color ∷ []
  ]

  -- Scene._draw_spaces, with Scene._draw_zones
  unfoldable pub draw_spaces : Scene F → List Command
  unfolding dashes draw_zone_list
  draw_spaces s =
      let offset = s.frame / 4 % (dash * 2) in
      rect (pos 0) (pos (boundary_y + 1)) (pos width) (pos (height - boundary_y - 1)) col_kernel_bg
        true
      ∷ (dashes ((width + offset + (dash * 2 - 1)) / (dash * 2)) (minus 0 offset)
          ++ (centered (codes "USERLAND") (boundary_y - 11)
              ∷ centered (codes "KERNEL SPACE") (boundary_y + 4)
              ∷ draw_zone_list (elim s.pulse [ none ↦ none | some p ↦ some p.target_x ])
                  zone_order))

  -- Scene._split_offset, for the splits from one on
  unfoldable pub split_offset : ℤ → List Split → ℤ
  unfolding ◌+ℤ◌ ◌-ℤ◌
  split_offset pid [] = pos 0
  split_offset pid (split ∷ splits) =
      let frac = sub (of_int (pos 1)) (div (of_int (pos split.age)) (of_int (pos split_ttl))) in
      let amp = round (mul (of_int (pos 6)) frac) in
      let rest = split_offset pid splits in
      if le frac (of_int (pos 0))
      then rest
      else if pid == split.child
      then amp +ℤ rest
      else if pid == split.parent
      then rest -ℤ amp
      else rest

  -- The boxes of the pids; `none` is a `KeyError`.
  unfoldable pub draw_boxes : World → Dict ℤ Box → List Split → List ℤ → Option (List Command)
  unfolding draw_box split_offset box_rect ◌+ℤ◌
  draw_boxes w rects splits [] = some []
  draw_boxes w rects splits (pid ∷ pids) = elim (lookup pid w.processes) [
    | none ↦ none
    | some p ↦
        let b = box_rect pid rects in
        Option.map (λ rest. draw_box p (record b { x = b.x +ℤ split_offset pid splits }) ++ rest)
          (draw_boxes w rects splits pids)
  ]

  -- The color of a pulse on the screen, and the step of its trail.
  unfoldable pub pulse_color : Pulse F → ℕ
  unfolding result_color
  pulse_color p = elim p.state [
    | PulseState.return ↦ result_color (or_zero p.result)
    | _ ↦ col_pulse
  ]

  -- A point of the trail, where it lies on the way of pulses.
  unfoldable pub trail : ℤ → ℤ → ℕ → List Command
  unfolding int_leb
  trail x y r =
      if int_leb (pos origin_y) y && int_leb y (pos rest_y)
      then circle x y (pos r) col_dim true ∷ []
      else []

  -- The two points behind a pulse that moves down or up.
  unfoldable pub trails : PulseState → ℤ → ℤ → List Command
  unfolding trail ◌+ℤ◌ ◌-ℤ◌
  trails PulseState.descend x y = trail x (y -ℤ pos 5) 2 ++ trail x (y -ℤ pos 10) 1
  trails PulseState.wait x y = []
  trails PulseState.return x y = trail x (y +ℤ pos 5) 2 ++ trail x (y +ℤ pos 10) 1

  -- The y of a pulse on the screen: a waiting pulse wobbles.
  unfoldable pub pulse_y : ℕ → Pulse F → ℤ
  unfolding ◌+ℤ◌
  pulse_y frame p = elim p.state [
    | PulseState.wait ↦ trunc p.y +ℤ bob (frame / 4 % 6)
    | _ ↦ trunc p.y
  ]

  unfoldable pub pulse_radius : Pulse F → ℕ
  pulse_radius p = elim p.state [
    | PulseState.return ↦ if is_negative (or_zero p.result) then 2 else 3
    | _ ↦ 3
  ]

  -- The ripple of a waiting pulse.
  unfoldable pub ripple : Pulse F → ℤ → List Command
  ripple p y = elim p.state [
    | PulseState.wait ↦ circle (trunc p.x) y (pos (5 + p.t / 3 % 6)) col_dim false ∷ []
    | _ ↦ []
  ]

  -- Scene._draw_pulse, for a pulse
  unfoldable pub draw_pulse : ℕ → Pulse F → List Command
  unfolding trails pulse_y pulse_radius pulse_color ripple ◌+ℤ◌ ◌-ℤ◌
  draw_pulse frame p =
      let x = trunc p.x in
      let y = pulse_y frame p in
      line p.origin_x (pos origin_y) x y col_dim
      ∷ (trails p.state x y
          ++ (circle x y (pos (pulse_radius p)) (pulse_color p) true
              ∷ text (x +ℤ pos 8) (y -ℤ pos 2) p.name col_name
              ∷ ripple p y))

  -- The pulse rides home.
  unfoldable pub is_returning : Option (Pulse F) → Bool
  is_returning none = false
  is_returning (some p) = elim p.state [ PulseState.return ↦ true | _ ↦ false ]

  unfoldable pub is_faded : Scene F → Bool
  is_faded s = elim s.result_shown_since [
    | none ↦ false
    | some since ↦ ltb (since + fail_result_ttl) s.frame
  ]

  -- Scene._draw_result, for the initial process
  unfoldable pub draw_result : Scene F → Process → List Command
  unfolding is_returning is_faded box_rect result_color ◌+ℤ◌
  draw_result s p = elim p.last_result [
    | none ↦ []
    | some result ↦
        let b = box_rect p.pid s.rects in
        if is_returning s.pulse || is_negative result && is_faded s
        then []
        else text (b.x +ℤ b.w +ℤ pos 6) (b.y +ℤ pos 13) (codes "= " ++ print_ℤ result)
            (result_color result)
          ∷ []
  ]

  -- The layers behind the boxes, for the initial process and a scene that has the new layout.
  unfoldable pub draw_rest : Scene F → Process → List Command
  unfolding draw_result region_blocks draw_pulse draw_fd_bar draw_rings draw_status
  draw_rest s p =
      draw_result s p
      ++ (region_blocks 0 (sort_ints (keys p.regions))
          ++ (elim s.pulse [ none ↦ [] | some q ↦ draw_pulse s.frame q ]
              ++ (draw_fd_bar p ++ (draw_rings s.rings ++ draw_status s))))

  -- Scene.render, with the layout that it leaves in the scene; `none` is a `KeyError`.
  unfoldable pub render : World → Scene F → Option (List Command × Scene F)
  unfolding draw_spaces draw_boxes draw_rest layout box_pids
  render w s = elim (layout w) [
    | none ↦ none
    | some rects ↦
        let s' : Scene F = record s { pids = box_pids w; rects = rects } in
        elim (draw_boxes w rects s.splits (box_pids w)) [
          | none ↦ none
          | some boxes ↦ elim (Model.process w) [
            | none ↦ none
            | some p ↦ some (draw_spaces s ++ (boxes ++ draw_rest s' p), s')
          ]
        ]
  ]
