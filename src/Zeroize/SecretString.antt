-- ===== src/Zeroize/SecretString.antt =====
-- `SecretString` of src/zeroize.rs: a password as it was typed, wiped when dropped.
use evnx_crypto.Base.Bytes.{Bytes, Text}
use evnx_crypto.Base.{String, Bool, length, ◌==◌}
use evnx_crypto.Crates.{Crates}

pub record SecretString : Type 0 where
  pub text : Text

unfoldable pub new : Text → SecretString
new s = record { text = s }

-- `From<String>` and `From<&str>`. The second copies the text, which stays as it is.
unfoldable pub from_string : Text → SecretString
unfolding new
from_string s = new s

unfoldable pub from_str : Text → SecretString
unfolding new
from_str s = new s

unfoldable pub as_bytes : SecretString → Bytes
as_bytes s = s.text

unfoldable pub as_str : SecretString → Text
as_str s = s.text

unfoldable pub is_empty : SecretString → Bool
is_empty s = length s.text == 0

unfoldable pub debug : SecretString → String
debug s = "SecretString([REDACTED])"

unfoldable pub display : SecretString → String
display s = "[REDACTED]"

unfoldable pub drop : Crates → SecretString → Bytes
drop c s = c.zeroize.zeroize s.text
