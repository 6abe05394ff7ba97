-- ===== src/Machine/Devices/Keyboard.antt =====
-- The console's buffer of one character between the keyboard and `GetChar`.
use mathlib.Core.List.{append_assoc}
use cop5614nachos.Base.{
  ℕ, ◌≡◌, refl, ap, ◌∙◌, Option, none, some, List, [], ◌∷◌, ◌++◌, ◌==◌, inl, inr, Bool-cases,
  if◌then◌else◌,
}
use cop5614nachos.Machine.Devices.{Console, eof, poll_file, poll_console, get_char}

-- The keyboard is polled by the device, or the kernel takes the character.
pub data ConsoleEvent : Type 0 where
  poll get : ConsoleEvent

-- A character, unless it is the one that stands for none.
abbrev pub seen : ℕ → List ℕ
seen ch = if ch == eof then [] else ch ∷ []

-- The characters that `GetChar` returns, in order, and the console afterwards.
unfoldable pub console_run : List ConsoleEvent → Console → List ℕ × Console
unfolding poll_console get_char
console_run [] c = ([], c)
console_run (poll ∷ events) c = console_run events (poll_console c).1
console_run (get ∷ events) c =
    let (ch, c') = get_char c in let (later, c'') = console_run events c' in (seen ch ++ later, c'')

-- What the polls of the keyboard are still to find.
abbrev pub typed : List (Option ℕ) → List ℕ
typed [] = []
typed (none ∷ keys) = typed keys
typed (some key ∷ keys) = seen key ++ typed keys

-- What was typed and not yet taken.
abbrev pub unread : Console → List ℕ
unread c = seen c.incoming ++ typed c.keys

unread-poll_console :
    (keys : List (Option ℕ)) (c : Console)
    → unread (poll_console (record c { keys = keys })).1 ≡ unread (record c { keys = keys })
unfolding poll_console poll_file
unread-poll_console [] c = elim (Bool-cases (c.incoming == eof)) [
  | inl empty ↦ simp empty
  | inr full ↦ simp full
]
unread-poll_console (none ∷ keys) c = elim (Bool-cases (c.incoming == eof)) [
  | inl empty ↦ simp empty
  | inr full ↦ simp full
]
unread-poll_console (some key ∷ keys) c = elim (Bool-cases (c.incoming == eof)) [
  | inl empty ↦ simp empty
  | inr full ↦ simp full
]

-- Whatever the order of polls and `GetChar`s, the characters that `GetChar` returns, followed by the
-- one in the buffer and those still to be typed, are the characters that were there at first, in
-- order: none is lost, repeated or overtaken. The character 255, which is taken for none, is left out.
pub console_run-unread :
    (events : List ConsoleEvent) (c : Console)
    → (console_run events c).0 ++ unread (console_run events c).1 ≡ unread c
unfolding console_run get_char
console_run-unread [] c = refl
console_run-unread (poll ∷ events) c =
    console_run-unread events (poll_console c).1 ∙ unread-poll_console c.keys c
console_run-unread (get ∷ events) c =
    let c' = (get_char c).1 in
    append_assoc (seen c.incoming) (console_run events c').0 (unread (console_run events c').1)
    ∙ ap (λ l. seen c.incoming ++ l) (console_run-unread events c')
