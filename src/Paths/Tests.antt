-- ===== src/Paths/Tests.antt =====
-- CleanSaveLogical on paths.
use varkiv.Common.{◌≡◌, ◌↔◌, refl, codes, Stdlib, ok, err, is_empty, any, false}
use varkiv.Paths.Reserved.{windows_reserved_two}
use varkiv.Paths.SaveLogical.{
  clean_save_logical, to_slashes, unsafe_save_logical_path, windows_reserved,
}
use varkiv.Paths.Portable.{IsPortable, clean_save_logical_iff}

-- No case beyond ASCII.
instance abbrev plain : Stdlib
plain = record { lower_wide = λ c. c; upper_wide = λ c. c; sha256 = λ t. t; sha256_bytes = λ t. t }

clean_save_logical_iff_example :
    (clean_save_logical (codes "states\\slot.st1") ≡ ok (codes "states/slot.st1")) ↔ (
      IsPortable (codes "states\\slot.st1")
      × (codes "states/slot.st1" ≡ to_slashes (codes "states\\slot.st1")))
clean_save_logical_iff_example =
    clean_save_logical_iff (codes "states\\slot.st1") (codes "states/slot.st1")

kept : clean_save_logical (codes "states\\slot.st1") ≡ ok (codes "states/slot.st1")
unfolding clean_save_logical varkiv.Common.◌=ᵗ◌ varkiv.Common.trim varkiv.Common.byte_len
    varkiv.Paths.Slashes.is_rooted to_slashes varkiv.Paths.SaveLogical.ends_with
    varkiv.Paths.SaveLogical.has_double_slash varkiv.Paths.Slashes.clean varkiv.Paths.Slashes.join
    varkiv.Paths.Slashes.split varkiv.Paths.SaveLogical.refuses_part
    varkiv.Paths.SaveLogical.is_forbidden varkiv.Paths.SaveLogical.windows_reserved
    varkiv.Common.upper varkiv.Paths.SaveLogical.is_control
kept = refl

parent_refused : clean_save_logical (codes "../slot.st1") ≡ err unsafe_save_logical_path
unfolding clean_save_logical varkiv.Common.◌=ᵗ◌ varkiv.Common.trim varkiv.Common.byte_len
    varkiv.Paths.Slashes.is_rooted to_slashes varkiv.Paths.SaveLogical.ends_with
    varkiv.Paths.SaveLogical.has_double_slash varkiv.Paths.Slashes.clean varkiv.Paths.Slashes.join
    varkiv.Paths.Slashes.split varkiv.Paths.SaveLogical.refuses_part
parent_refused = refl

device_refused : clean_save_logical (codes "nul.srm") ≡ err unsafe_save_logical_path
unfolding clean_save_logical varkiv.Common.◌=ᵗ◌ varkiv.Common.trim varkiv.Common.byte_len
    varkiv.Paths.Slashes.is_rooted to_slashes varkiv.Paths.SaveLogical.ends_with
    varkiv.Paths.SaveLogical.has_double_slash varkiv.Paths.Slashes.clean varkiv.Paths.Slashes.join
    varkiv.Paths.Slashes.split varkiv.Paths.SaveLogical.refuses_part
    varkiv.Paths.SaveLogical.is_forbidden varkiv.Paths.SaveLogical.windows_reserved
    varkiv.Common.upper
device_refused = refl

windows_reserved_two_example : windows_reserved (codes "NUL.tar.gz") ≡ false
windows_reserved_two_example = windows_reserved_two (codes "NUL") (codes "tar") (codes "gz") refl
