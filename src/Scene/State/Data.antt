-- ===== src/Scene/State/Data.antt =====
-- The data of the picture, scene.py: its constants, the pulse, rings, splits and the scene.
use fuddy_duddy.Prelude.{ℕ, ◌+◌, ◌/◌, Option, none, List, []}
use fuddy_duddy.Int.{ℤ, int_eq}
use fuddy_duddy.Text.{Str}
use fuddy_duddy.Dict.{Dict}
use fuddy_duddy.Floats.{Floats}
use fuddy_duddy.Render.{col_ok}
use fuddy_duddy.Scene.Layout.{Box, proc_x, proc_y, proc_w, proc_h}

abbrev pub col_dim : ℕ
col_dim = 5

abbrev pub col_pulse : ℕ
col_pulse = 10

abbrev pub pulse_x : ℕ
pulse_x = proc_x + proc_w / 2

abbrev pub origin_y : ℕ
origin_y = proc_y + proc_h

abbrev pub rest_y : ℕ
rest_y = 178

abbrev pub descend_frames : ℕ
descend_frames = 18

abbrev pub return_frames : ℕ
return_frames = 14

abbrev pub ring_ttl : ℕ
ring_ttl = 10

abbrev pub split_ttl : ℕ
split_ttl = 24

pub data PulseState : Type 0 where
  descend wait return : PulseState

pub record Ring : Type 0 where
  pub x : ℤ
  pub y : ℤ
  pub color : ℕ
  pub age : ℕ

abbrev pub ring : ℤ → ℤ → ℕ → Ring
ring x y color = record { x = x; y = y; color = color; age = 0 }

pub record Split : Type 0 where
  pub parent : ℤ
  pub child : ℤ
  pub age : ℕ

module _ (F : Floats) where
  open F use {Float}

  pub record Pulse : Type 0 where
    pub name : Str
    pub target_x : ℤ
    pub origin_x : ℤ
    pub path : Option Str
    pub fd : Option ℤ
    pub state : PulseState
    pub t : ℕ
    pub x : Float
    pub y : Float
    pub return_from : Float
    pub result : Option ℤ

  pub record Scene : Type 0 where
    pub frame : ℕ
    pub pulse : Option Pulse
    pub rings : List Ring
    pub splits : List Split
    pub pids : List ℤ
    pub rects : Dict ℤ Box
    pub result_shown_since : Option ℕ
    pub status_msg : Option Str
    pub status_color : ℕ
    pub status_since : ℕ

  -- Scene()
  abbrev pub empty : Scene
  empty = record {
    frame = 0;
    pulse = none;
    rings = [];
    splits = [];
    pids = [];
    rects = [];
    result_shown_since = none;
    status_msg = none;
    status_color = col_ok;
    status_since = 0;
  }
