-- ===== src/Wire/Result.antt =====
-- How decoding ends. A failed decoding leaves the message half filled; the callers drop it, so the
-- error alone is kept.
use stable_coin.Prelude.{Bool, if◌then◌else◌}

-- `stuck` is no Go value: it says that the model's fuel ran out.
pub data WireError : Type 0 where
  int_overflow unexpected_eof invalid_length : WireError
  end_group illegal_tag wrong_wire_type : WireError
  unexpected_end_of_group illegal_wire_type : WireError
  stuck : WireError

pub data Result (A : Type 0) : Type 0 where
  ok : A → Result A
  fail : WireError → Result A

infixl 5 ◌>>=◌ ◌>>◌
abbrev pub ◌>>=◌ : {A B : Type 0} → Result A → (A → Result B) → Result B
fail e >>= next = fail e
ok value >>= next = next value

abbrev pub ◌>>◌ : {B : Type 0} → Result (Unit {0}) → Result B → Result B
first >> second = first >>= λ _. second

abbrev pub fail_if : Bool → WireError → Result (Unit {0})
fail_if t e = if t then fail e else ok tt
