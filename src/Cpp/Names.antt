-- ===== src/Cpp/Names.antt =====
-- ResourceID (user/include/cuddl/general.hpp): the identifier of a resource, and its full name.
pub mod RoundTrip
use cuddl.Base.{
  ℕ, ◌≡◌, refl, zero, suc, ◌+◌, ◌-◌, Option, none, some, [], ◌∷◌, ◌++◌, drop, ℤ, pos, negsuc,
}
use cuddl.CStr.{Str, max_str_len, padded, strncpy, text, codes}
use cuddl.Kernel.{ResourceId}
use cuddl.Cpp.Strings.{find, substr, to_string, stoi}

-- memset(&id, 0, sizeof(id))
unfoldable pub zero_id : ResourceId
unfolding padded
zero_id = record {
  group = padded [] max_str_len;
  device = padded [] max_str_len;
  resource = padded [] max_str_len;
  instance_id = pos 0;
}

-- strncpy(field, s, MAX_STR_LEN-1)
unfoldable pub set_name : Str → Str → Str
unfolding strncpy
set_name field s = strncpy field s (max_str_len - 1)

abbrev pub with_group : Str → ResourceId → ResourceId
with_group s id = record id { group = set_name id.group s }

abbrev pub with_device : Str → ResourceId → ResourceId
with_device s id = record id { device = set_name id.device s }

abbrev pub with_resource : Str → ResourceId → ResourceId
with_resource s id = record id { resource = set_name id.resource s }

abbrev pub with_instance : ℤ → ResourceId → ResourceId
with_instance i id = record id { instance_id = i }

-- The constructor from names.
unfoldable pub resource_id : Str → Str → Str → ℤ → ResourceId
unfolding zero_id set_name
resource_id group device resource instance =
    with_instance instance (with_resource resource (with_device device (with_group group zero_id)))

-- `if (s == "") s = "*";`
abbrev pub starred : Str → Str
starred [] = 42 ∷ []
starred (c ∷ s) = c ∷ s

abbrev pub instance_text : ℤ → Str
instance_text (pos zero) = 42 ∷ []
instance_text (pos (suc n)) = to_string (pos (suc n))
instance_text (negsuc n) = to_string (negsuc n)

unfoldable pub full_name : ResourceId → Str
unfolding to_string text
full_name id =
    starred (text id.group)
    ++ 47
      ∷ (starred (text id.device)
          ++ 47 ∷ (starred (text id.resource) ++ 47 ∷ instance_text id.instance_id))

-- The instance that the last part spells: none changes the identifier, and what `stoi` throws is
-- caught.
abbrev pub parsed_instance : Option ℤ → ℤ
parsed_instance none = negsuc 0
parsed_instance (some i) = i

unfoldable pub set_instance : Str → ResourceId → ResourceId
unfolding stoi
set_instance [] id = id
set_instance (c ∷ s) id = with_instance (parsed_instance (stoi (c ∷ s))) id

-- Behind the second slash, at `i1`.
unfoldable pub set_resource : Str → ℕ → Option ℕ → ResourceId → ResourceId
unfolding substr set_name set_instance
set_resource name i1 none id = with_resource (drop (i1 + 1) name) id
set_resource name i1 (some i2) id =
    set_instance (drop (i2 + 1) name) (with_resource (substr name (i1 + 1) (i2 - i1 - 1)) id)

-- Behind the first slash, at `i1`.
unfoldable pub set_device : Str → ℕ → Option ℕ → ResourceId → ResourceId
unfolding substr find set_name set_resource
set_device name i1 none id = with_device (drop (i1 + 1) name) id
set_device name i1 (some i2) id =
    set_resource name i2 (find name 47 (i2 + 1))
      (with_device (substr name (i1 + 1) (i2 - i1 - 1)) id)

unfoldable pub set_group : Str → Option ℕ → ResourceId → ResourceId
unfolding substr find set_name set_device
set_group name none id = with_device name id
set_group name (some i1) id =
    set_device name i1 (find name 47 (i1 + 1)) (with_group (substr name 0 i1) id)

-- ResourceID::full_name(const std::string &)
unfoldable pub of_full_name : Str → ResourceId
unfolding zero_id find set_group
of_full_name name = set_group name (find name 47 0) zero_id

name_read :
    of_full_name (codes "g/d/m/12x") ≡ resource_id (codes "g") (codes "d") (codes "m") (pos 12)
unfolding of_full_name resource_id
name_read = refl
