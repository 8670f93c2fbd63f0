-- ===== src/Consensus/Names.antt =====
-- The names of collections (src/consensus/config.rs).
use dewdb.Prelude.{
  ◌≡◌, refl, arith, ℕ, Bool, true, false, not, ◌&&◌, ◌||◌, List, [], ◌∷◌, Bytes, bytes_eq, codes,
  leb, ◌==◌, if◌then◌else◌, is_empty, length, any, all,
}
use dewdb.Util.Endpoint.{eq_ignore_ascii_case, lower}

unfoldable pub is_system_collection : Bytes → Bool
is_system_collection [] = false
is_system_collection (c ∷ cs) = c == 95

abbrev pub max_collection_name_len : ℕ
max_collection_name_len = 128

-- `split('.').next()`
unfoldable pub stem : Bytes → Bytes
stem [] = []
stem (c ∷ cs) = if c == 46 then [] else c ∷ stem cs

abbrev pub devices : List Bytes
devices =
    codes "con"
    ∷ codes "prn"
    ∷ codes "aux"
    ∷ codes "nul"
    ∷ codes "com1"
    ∷ codes "com2"
    ∷ codes "com3"
    ∷ codes "com4"
    ∷ codes "com5"
    ∷ codes "com6"
    ∷ codes "com7"
    ∷ codes "com8"
    ∷ codes "com9"
    ∷ codes "lpt1"
    ∷ codes "lpt2"
    ∷ codes "lpt3"
    ∷ codes "lpt4"
    ∷ codes "lpt5"
    ∷ codes "lpt6"
    ∷ codes "lpt7"
    ∷ codes "lpt8"
    ∷ codes "lpt9"
    ∷ []

unfoldable pub is_windows_reserved : Bytes → Bool
unfolding stem
is_windows_reserved name = any (λ device. eq_ignore_ascii_case (stem name) device) devices

-- `str::ends_with`
unfoldable pub ends_with : Bytes → Bytes → Bool
ends_with [] suffix = bytes_eq [] suffix
ends_with (c ∷ cs) suffix = bytes_eq (c ∷ cs) suffix || ends_with cs suffix

abbrev pub starts_with_dot : Bytes → Bool
starts_with_dot [] = false
starts_with_dot (c ∷ cs) = c == 46

abbrev pub is_name_byte : ℕ → Bool
is_name_byte b = (leb 97 b && leb b 122) || (leb 48 b && leb b 57) || b == 95 || b == 45 || b == 46

unfoldable pub valid_collection_name : Bytes → Bool
unfolding is_windows_reserved ends_with
valid_collection_name name =
    not (is_empty name)
    && leb (length name) max_collection_name_len
    && not (starts_with_dot name)
    && not (ends_with name (codes "."))
    && not (ends_with name (codes ".tmp"))
    && not (ends_with name (codes ".old"))
    && not (is_windows_reserved name)
    && all is_name_byte name

-- Two names that are equal but for the case of their letters are one name, if both are made of the
-- bytes that a valid name may have.
name_bytes_eq :
    (xs ys : Bytes)
    → all is_name_byte xs ≡ true
    → all is_name_byte ys ≡ true
    → eq_ignore_ascii_case xs ys ≡ true
    → xs ≡ ys
unfolding eq_ignore_ascii_case lower
name_bytes_eq [] [] h k e = refl
name_bytes_eq [] (y ∷ ys) h k e = absurd (ground arith)
name_bytes_eq (x ∷ xs) [] h k e = absurd (ground arith)
name_bytes_eq (x ∷ xs) (y ∷ ys) h k e =
    let ih = name_bytes_eq xs ys in let head : x ≡ y = ground arith in ground arith

-- No two valid names alias on a file system that ignores case: valid names that are equal but for
-- the case of ASCII letters are equal.
pub valid_names_do_not_alias :
    (a b : Bytes)
    → valid_collection_name a ≡ true
    → valid_collection_name b ≡ true
    → eq_ignore_ascii_case a b ≡ true
    → a ≡ b
unfolding valid_collection_name
valid_names_do_not_alias a b h k e = name_bytes_eq a b (ground arith) (ground arith) e
