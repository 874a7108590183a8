-- ===== src/Wire.antt =====
-- wire.py: the events of the collector's line protocol, and the errors of their parser. Every error is a
-- `ValueError` in Python, the `KeyError` of a missing field too, which `parse_line` turns into one.
pub mod Unescape
pub mod Fields
pub mod Parse
pub mod Tracer
use fuddy_duddy.Prelude.{ℕ, List, [], ◌∷◌, Bool, Option, none, some}
use fuddy_duddy.Int.{ℤ}
use fuddy_duddy.Text.{Str}
use fuddy_duddy.Dict.{Dict}

-- The six raw arguments of a syscall.
pub record Args : Type 0 where
  pub a0 : ℤ
  pub a1 : ℤ
  pub a2 : ℤ
  pub a3 : ℤ
  pub a4 : ℤ
  pub a5 : ℤ

abbrev pub to_list : Args → List ℤ
to_list a = a.a0 ∷ a.a1 ∷ a.a2 ∷ a.a3 ∷ a.a4 ∷ a.a5 ∷ []

pub record WireEnter : Type 0 where
  pub pid : ℤ
  pub ts : ℤ
  pub nr : ℤ
  pub args : Args
  pub strings : Dict ℤ Str

pub record WireExit : Type 0 where
  pub pid : ℤ
  pub ts : ℤ
  pub ret : ℤ
  pub err : Bool

pub record WireExited : Type 0 where
  pub pid : ℤ
  pub ts : ℤ
  pub code : ℤ

pub record WireSignaled : Type 0 where
  pub pid : ℤ
  pub ts : ℤ
  pub sig : ℤ

pub record WireSpawn : Type 0 where
  pub pid : ℤ
  pub ts : ℤ
  pub child : ℤ

pub data WireEvent : Type 0 where
  enter : WireEnter → WireEvent
  exit : WireExit → WireEvent
  exited : WireExited → WireEvent
  signaled : WireSignaled → WireEvent
  spawn : WireSpawn → WireEvent

pub data Error : Type 0 where
  empty_line malformed_field missing_field unknown_kind wrong_arg_count bad_int truncated_escape
        bad_byte :
      Error

pub data Result {ℓ} (A : Type ℓ) : Type ℓ where
  ok : A → Result A
  err : Error → Result A

infixl 5 ◌>>=◌
abbrev pub ◌>>=◌ {ℓ κ} : {A : Type ℓ} {B : Type κ} → Result A → (A → Result B) → Result B
ok a >>= f = f a
err e >>= f = err e

-- A value that may be missing, with the error that says so.
abbrev pub or_raise {ℓ} : {A : Type ℓ} → Option A → Error → Result A
or_raise none e = err e
or_raise (some a) e = ok a
