-- ===== src/Base/Code.antt =====
-- The codes FSAERR_ and OLDERR_ of fsarchiver.h.
use fsarchiver.Base.Int.{ℤ, pos, negsuc}

abbrev pub success : ℤ
success = pos 0

abbrev pub unknown : ℤ
unknown = negsuc 0

abbrev pub enomem : ℤ
enomem = negsuc 1

abbrev pub einval : ℤ
einval = negsuc 2

abbrev pub enoent : ℤ
enoent = negsuc 3

abbrev pub end_of_file : ℤ
end_of_file = negsuc 4

abbrev pub wrong_type : ℤ
wrong_type = negsuc 5

abbrev pub old_fatal : ℤ
old_fatal = pos 1

abbrev pub old_minor : ℤ
old_minor = pos 2
