-- ===== src/Decode/Live.antt =====
-- Wire events of one syscall, from its ENTER to its EXIT, as the world sees them behind the decoder.
use fuddy_duddy.Prelude.{
  ℕ, ◌≡◌, refl, ◌∙◌, ap, none, some, List, [], ◌∷◌, ◌++◌, nat_eq, list_eq, list_beq, All,
  if◌then◌else◌,
}
use fuddy_duddy.Int.{ℤ, pos, int_eq, int_beq}
use fuddy_duddy.Text.{Str, codes}
use fuddy_duddy.Dict.{Dict, lookup, insert, erase}
use fuddy_duddy.Event.{Event}
use fuddy_duddy.Model.{World, run}
use fuddy_duddy.Model.Invariant.{IsValid}
use fuddy_duddy.Model.Frame.{Avoids, IsKnown}
use fuddy_duddy.Model.Phases.{seen}
use fuddy_duddy.Model.Syscalls.{behind, settled, openat_opens, close_closes}
use fuddy_duddy.Results.{is_in}
use fuddy_duddy.Syscalls.{names}
use fuddy_duddy.Wire.{WireEvent, WireEnter, WireExit}
use fuddy_duddy.Decode.{
  Decoder, fd_first, name_of, path_of, enter_event, exit_event, push, push_all,
}
use fuddy_duddy.Decode.Pending.{WireAvoids, push_all-Avoids, exit_named}

-- The numbers of the syscalls that the model knows.
name_of_openat : name_of (pos 257) ≡ codes "openat"
unfolding name_of int_beq lookup names
name_of_openat = refl

name_of_close : name_of (pos 3) ≡ codes "close"
unfolding name_of int_beq lookup names
name_of_close = refl

path_of_openat : (strings : Dict ℤ Str) → path_of (codes "openat") strings ≡ lookup (pos 1) strings
unfolding path_of list_beq
path_of_openat strings = refl

fd_of_close : (fd : ℤ) → (if is_in (codes "close") fd_first then some fd else none) ≡ some fd
unfolding is_in list_beq
fd_of_close fd = refl

module _ (e : WireEnter) (x : WireExit) (others : List WireEvent) (d : Decoder) (w : World) (r : ℕ)
    (hw : IsValid w) (known : IsKnown w) (same : x.pid ≡ e.pid)
    (avoid : All (WireAvoids e.pid) others) (returned : x.ret ≡ pos r) where
  abbrev between : List Event
  between = (push_all others (push (WireEvent.enter e) d).1).0

  others_avoid : All (Avoids e.pid) between
  others_avoid = push_all-Avoids e.pid others (push (WireEvent.enter e) d).1 avoid

  decoded_run :
      run (push_all ((WireEvent.enter e ∷ others) ++ WireEvent.exit x ∷ []) d).0 w
      ≡ behind (enter_event e) (exit_event x (name_of e.nr)) between w
  decoded_run = ap (λ es. run es w) (exit_named e x others d same avoid)

  -- Wire events of an `openat` (number 257), from the ENTER of a pid to its EXIT with a result
  -- that is not negative, with only wire events about other pids in between, and from a valid
  -- world whose initial pid is known: after decoding and applying all of them, the process of the
  -- pid has the decoded string of argument 1, if any, as the target of the returned descriptor,
  -- and is otherwise what it was before the ENTER with the result recorded.
  pub openat_live :
      e.nr ≡ pos 257
      → seen e.pid (run (push_all ((WireEvent.enter e ∷ others) ++ WireEvent.exit x ∷ []) d).0 w)
        ≡ record (settled (enter_event e) w (pos r)) {
          fds =
              insert
                (pos r)
                (record { number = pos r; target = lookup (pos 1) e.strings })
                (seen e.pid w).fds;
        }
  unfolding enter_event
  openat_live nr =
      let named : name_of e.nr ≡ codes "openat" = ap name_of nr ∙ name_of_openat in
      ap (seen e.pid) decoded_run
      ∙ openat_opens (enter_event e) (exit_event x (name_of e.nr)) between w (pos r) hw known refl
          refl same refl others_avoid (ap some returned) refl named
      ∙ ap
          (λ path. record (settled (enter_event e) w (pos r)) {
            fds = insert (pos r) (record { number = pos r; target = path }) (seen e.pid w).fds;
          })
          (ap (λ n. path_of n e.strings) named ∙ path_of_openat e.strings)

  -- Wire events of a `close` (number 3), from the ENTER of a pid to its EXIT with a result that is
  -- not negative, with only wire events about other pids in between, and from a valid world whose
  -- initial pid is known: after decoding and applying all of them, the first argument is no
  -- descriptor of the process, which is otherwise what it was before the ENTER with the result
  -- recorded.
  pub close_live :
      e.nr ≡ pos 3
      → seen e.pid (run (push_all ((WireEvent.enter e ∷ others) ++ WireEvent.exit x ∷ []) d).0 w)
        ≡ record (settled (enter_event e) w (pos r)) { fds = erase e.args.a0 (seen e.pid w).fds }
  unfolding enter_event
  close_live nr =
      let named : name_of e.nr ≡ codes "close" = ap name_of nr ∙ name_of_close in
      ap (seen e.pid) decoded_run
      ∙ close_closes (enter_event e) (exit_event x (name_of e.nr)) between w (pos r) hw known refl
          refl same refl others_avoid (ap some returned) e.args.a0 refl named
          (ap (λ n. if is_in n fd_first then some e.args.a0 else none) named
            ∙ fd_of_close e.args.a0)
