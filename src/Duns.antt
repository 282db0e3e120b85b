-- ===== src/Duns.antt =====
-- app/duns.py
pub mod Normal
use naesb_edi.Base.{Bool, ◌&&◌, Text, Python, truthy, all, length, ltb, zfill, if◌then◌else◌}

module _ (py : Python) where
  -- `value.isdigit()`, which is false of an empty text.
  abbrev pub is_digits : Text → Bool
  is_digits v = truthy v && all py.is_digit v

  unfoldable pub normalize_duns : Text → Text
  unfolding zfill
  normalize_duns v = if is_digits v && ltb (length v) 9 then zfill 9 v else v
