-- ===== src/Event.antt =====
-- event.py: what flows from a source through the world into the scene.
use fuddy_duddy.Prelude.{List, Option, ◌≡◌, refl, ◌⊎◌, inl, inr}
use fuddy_duddy.Int.{ℤ}
use fuddy_duddy.Text.{Str}

pub data Phase : Type 0 where
  enter exit : Phase

pub record SyscallEvent : Type 0 where
  pub pid : ℤ
  pub name : Str
  pub phase : Phase
  pub result : Option ℤ
  pub path : Option Str
  pub fd : Option ℤ
  pub args : List ℤ

pub record SpawnEvent : Type 0 where
  pub parent : ℤ
  pub child : ℤ

pub record ExitEvent : Type 0 where
  pub pid : ℤ
  pub code : Option ℤ
  pub signal : Option ℤ

pub data Event : Type 0 where
  syscall : SyscallEvent → Event
  spawn : SpawnEvent → Event
  exited : ExitEvent → Event

pub Phase-cases : (p : Phase) → (p ≡ Phase.enter) ⊎ (p ≡ Phase.exit)
Phase-cases Phase.enter = inl refl
Phase-cases Phase.exit = inr refl
