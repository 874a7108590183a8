-- ===== src/Scene/Listing.antt =====
-- What a frame shows of every process and of every descriptor.
use mathlib.Core.List.Memᴰ
use mathlib.Core.List.{Memᴰ}
use fuddy_duddy.Prelude.{
  none, ℕ, ◌+◌, ◌*◌, ◌≡◌, refl, ◌∙◌, true, false, Bool-cases, Option-cases, some, List, [], ◌∷◌,
  ◌++◌, ◌==◌, inl, inr, All, length, arith,
}
use fuddy_duddy.Int.{ℤ, pos, int_eq, int_beq_iff, sort_ints, ◌+ℤ◌}
use fuddy_duddy.Text.{codes, print_ℤ}
use fuddy_duddy.Dict.{Dict, lookup, keys}
use fuddy_duddy.Dict.Laws.{contains_of_lookup}
use fuddy_duddy.Floats.{Floats}
use fuddy_duddy.Model
use fuddy_duddy.Model.{Fd, Process}
use fuddy_duddy.Render.{Command, rect, line, circle, text, pixel, fd_bar_y}
use fuddy_duddy.Scene.Layout.{Box, is_seen}
use fuddy_duddy.Scene.Cover.{is_seen-sort_ints, is_seen-keys}
use fuddy_duddy.Scene.State.{Scene, col_dim}
use fuddy_duddy.Scene.Layers.{
  draw_fd_bar, fd_label, fd_entries, col_text, col_label, col_box_edge, fd_sep_y,
}

-- The text of a descriptor in the bar: its number, and behind a space the target if it has one.
abbrev pub entry : ℕ → Fd → Command
entry x fd =
    text (pos x) (pos (fd_bar_y + 3))
      (elim fd.target [
        | some target ↦ print_ℤ fd.number ++ b' ' ∷ target
        | none ↦ print_ℤ fd.number
      ])
      col_text

fd_entries-shown :
    (x : ℕ) (fds : Dict ℤ Fd) (numbers : List ℤ) (number : ℤ) (fd : Fd)
    → lookup number fds ≡ some fd
    → is_seen number numbers ≡ true
    → (at : ℕ) × Memᴰ (entry at fd) (fd_entries x fds numbers)
unfolding fd_entries is_seen fd_label
fd_entries-shown x fds [] number fd found seen = cc
fd_entries-shown x fds (n ∷ numbers) number fd found seen = elim (Bool-cases (n == number)) [
  | inl same ↦
      let found' : lookup n fds ≡ some fd = ground (arith, found, int_beq_iff n number) in
      rw (found', fd_entries) (x + 4, Memᴰ.tail (Memᴰ.head refl))
  | inr other ↦
      let later : is_seen number numbers ≡ true = ground arith in
      elim (Option-cases (lookup n fds)) [
        | inl gone ↦ rw (gone, fd_entries) (fd_entries-shown x fds numbers number fd found later)
        | inr (fd', there) ↦
            let (at, m) =
              fd_entries-shown (x + (length (fd_label fd') * 4 + 6) + 6) fds numbers number fd found
                later in
            rw (there, fd_entries) (at, Memᴰ.tail (Memᴰ.tail m))
      ]
]

-- A command that is no text, or the text of an open descriptor.
abbrev pub IsOpenEntry : Dict ℤ Fd → Command → Type 0
IsOpenEntry fds (text x y s color) =
    (number : ℤ) × (fd : Fd) × (at : ℕ) × (lookup number fds ≡ some fd)
    × (text x y s color ≡ entry at fd)
IsOpenEntry fds (rect x y w h color filled) = Unit
IsOpenEntry fds (line x y v w color) = Unit
IsOpenEntry fds (circle x y r color filled) = Unit
IsOpenEntry fds (pixel x y color) = Unit

fd_entries-IsOpenEntry :
    (x : ℕ) (fds : Dict ℤ Fd) (numbers : List ℤ) → All (IsOpenEntry fds) (fd_entries x fds numbers)
unfolding fd_entries fd_label
fd_entries-IsOpenEntry x fds [] = tt
fd_entries-IsOpenEntry x fds (n ∷ numbers) = elim (Option-cases (lookup n fds)) [
  | inl gone ↦ rw (gone, fd_entries) (fd_entries-IsOpenEntry x fds numbers)
  | inr (fd, there) ↦
      rw (there, fd_entries)
        (
          tt,
          (
            (n, fd, x + 4, there, refl),
            fd_entries-IsOpenEntry (x + (length (fd_label fd) * 4 + 6) + 6) fds numbers,
          ),
        )
]

-- For any descriptor of a process: the descriptor bar is a line, the heading and entries; every
-- text among the entries is at the height of the bar and is the printed number of a descriptor of
-- the process, followed by a space and the target if it has one, and the given descriptor has such
-- an entry (R7).
pub fd_bar_lists :
    (p : Process) (number : ℤ) (fd : Fd)
    → lookup number p.fds ≡ some fd
    → (entries : List Command) × (draw_fd_bar p
        ≡ line (pos 0) (pos fd_sep_y) (pos 255) (pos fd_sep_y) col_dim
          ∷ text (pos 5) (pos (fd_sep_y + 4)) (codes "FDS") col_label
          ∷ entries)
      × All (IsOpenEntry p.fds) entries
      × ((at : ℕ) × Memᴰ (entry at fd) entries)
unfolding draw_fd_bar
fd_bar_lists p number fd found =
    let numbers = sort_ints (keys p.fds) in
    let seen : is_seen number numbers ≡ true =
      is_seen-sort_ints number (keys p.fds)
      ∙ is_seen-keys number p.fds
      ∙ contains_of_lookup number fd p.fds found in
    (
      _,
      refl,
      fd_entries-IsOpenEntry 26 p.fds numbers,
      fd_entries-shown 26 p.fds numbers number fd found seen,
    )

module _ (F : Floats) where
  -- A box with the name and the pid of the process.
  pub record IsBoxed (p : Process) (b : Box) (cs : List Command) : Type 0 where
    pub x : ℤ
    pub edge : Memᴰ (rect x b.y b.w b.h col_box_edge false) cs
    pub name : Memᴰ (text (x +ℤ pos 5) (b.y +ℤ pos 5) p.name col_text) cs
    pub pid : Memᴰ (text (x +ℤ pos 5) (b.y +ℤ pos 13) (codes "pid " ++ print_ℤ p.pid) col_dim) cs
