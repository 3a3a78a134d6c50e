-- ===== src/Tests/Fixtures.antt =====
-- The states, events and surroundings of the tests.
use zen_os.Base.{ℕ, Bool, true, false, Option, none, some, List, [], ◌∷◌, Bytes, ◌==◌}
use zen_os.Base.Int.{pos}
use zen_os.Compositor.{Compositor, zeroed}
use zen_os.Compositor.World.{World}
use zen_os.Lock.{Auth, prompt_echo_off}
use zen_os.Input.{Hit, KeyEvent, Surroundings}
use zen_os.Keybinds.Fields.{Memory}

-- All windows but 3 are mapped, and stand at (10, 20); the cursor is at (5, 5).
abbrev pub desktop : World
desktop = record {
  mapped = λ t. elim (t == 3) [ true ↦ false | false ↦ true ];
  node_x = λ t. pos 10;
  node_y = λ t. pos 20;
  current_maximized = λ t. false;
  current_fullscreen = λ t. false;
  requested_output = λ t. none;
  client_title = λ t. none;
  client_app_id = λ t. none;
  output_at = λ x y. some 7;
  layout_outputs = 7 ∷ [];
  box_of = λ o. record { x = pos 0; y = pos 0; width = pos 1920; height = pos 1080 };
  output_width = λ o. pos 1920;
  output_height = λ o. pos 1080;
  has_keyboard = true;
  cursor_x = pos 1280;
  cursor_y = pos 1280;
  strdup = λ s. some s;
}

abbrev pub booted : Compositor
booted = record zeroed { wl_display = true; output_layout = true; seat = true; cursor = true }

-- The answer `a` to a prompt.
abbrev is_letter_a : Option (List (Option Bytes)) → Bool
is_letter_a (some (some (x ∷ []) ∷ [])) = x == b'a'
is_letter_a _ = false

-- PAM, which asks for the password and accepts `a`.
abbrev pub letter_a : Auth
letter_a = record {
  have_pam = true;
  user = some (b'u' ∷ []);
  login = none;
  starts = λ u. true;
  authenticates = λ u converse. is_letter_a (converse (prompt_echo_off ∷ []));
  has_memory = λ ms. true;
  strdup = λ s. some s;
}

abbrev pub around : Surroundings
around = record { world = desktop; auth = letter_a; lock_buffer = true }

abbrev pub pressing : List ℕ → ℕ → KeyEvent
pressing syms modifiers = record {
  time_msec = 1;
  keycode = 30;
  pressed = true;
  syms = syms;
  modifiers = modifiers;
}

abbrev pub hit_on : ℕ → Hit
hit_on t = record {
  data_upwards = none ∷ some t ∷ none ∷ [];
  surface = none;
  sx = pos 0;
  sy = pos 0;
}

-- Memory that never runs out.
abbrev pub plenty : Memory
plenty = record { copy = λ s. some s; binding = λ n. true; buffer = λ n. true }

-- A stand-in for xkb_keysym_from_name that knows names of one letter.
abbrev pub first_letter : Bytes → ℕ
first_letter [] = 0
first_letter (x ∷ s) = x
