-- ===== src/Bundler/Device.antt =====
-- validateDeviceTargetPath and applyDevicePreflight of internal/bundler/device_preflight.go, without
-- the check of the free space that comes last.
use varkiv.Common.{
  ℕ, zero, suc, ◌+◌, ℤ, pos, negsuc, Text, codes, Stdlib, trim, lower, upper, byte_len, Bool, false,
  not, ◌&&◌, ◌||◌, ◌==◌, ltb, leb, ◌=ᵗ◌, Option, none, some, List, [], ◌∷◌, ◌++◌, map, is_empty,
  length, Result, ok, err, if◌then◌else◌, reject, ◌>>◌,
}
use varkiv.Common.Maps.{Map, lookup, insert}
use varkiv.Paths.Slashes.{split, has}
use varkiv.Paths.SaveLogical.{ends_with}
use varkiv.Bundler.Model.{PlanItem, Plan}

-- The fields of catalog.DeviceProfile that the checks read.
pub record DeviceProfile : Type 0 where
  pub id : Text
  pub target : Text
  pub path_style : Text
  pub case_sensitive : Bool
  pub max_path : ℤ
  pub illegal_characters : Text
  pub supports_hardlink : Bool
  pub enabled : Bool

pub data DeviceError : Type 0 where
  empty_target too_long empty_segment illegal_character control_character : DeviceError
  bad_ending reserved_name : DeviceError

-- len(utf16.Encode([]rune(s)))
unfoldable pub utf16_len : Text → ℕ
utf16_len [] = 0
utf16_len (c ∷ s) = (if ltb c 0x10000 then 1 else 2) + utf16_len s

-- device.MaxPath > 0 && length > device.MaxPath
abbrev pub exceeds : ℤ → ℕ → Bool
exceeds (pos max) n = ltb 0 max && ltb max n
exceeds (negsuc max) n = false

unfoldable pub before_dot : Text → Text
before_dot [] = []
before_dot (c ∷ s) = let rest = before_dot s in if c == b'.' then [] else c ∷ rest

abbrev pub is_numbered : Text → Bool
is_numbered (a ∷ b ∷ c ∷ d ∷ []) =
    ((a ∷ b ∷ c ∷ [] =ᵗ codes "COM") || (a ∷ b ∷ c ∷ [] =ᵗ codes "LPT"))
    && (leb b'1' d && leb d b'9')
is_numbered base = false

abbrev pub is_reserved_base : Text → Bool
is_reserved_base base =
    (base =ᵗ codes "CON")
    || (base =ᵗ codes "PRN")
    || (base =ᵗ codes "AUX")
    || (base =ᵗ codes "NUL")
    || (base =ᵗ codes "CLOCK$")
    || is_numbered base

abbrev pub is_windows : DeviceProfile → Bool
is_windows device = device.path_style =ᵗ codes "windows"

unfoldable pub target_length : DeviceProfile → Text → ℕ
unfolding utf16_len
target_length device target = if is_windows device then utf16_len target else byte_len target

unfoldable pub check_characters : DeviceProfile → Text → Result DeviceError Unit
check_characters device [] = ok tt
check_characters device (c ∷ s) =
    let rest = check_characters device s in
    if has c device.illegal_characters
    then err illegal_character
    else if is_windows device && ltb c 32
    then err control_character
    else rest

module _ ⦃lib : Stdlib⦄ where
  unfoldable pub is_windows_reserved_name : Text → Bool
  unfolding before_dot
  is_windows_reserved_name segment = is_reserved_base (before_dot (upper segment))

  unfoldable pub check_segments : DeviceProfile → List Text → Result DeviceError Unit
  unfolding check_characters is_windows_reserved_name
  check_segments device [] = ok tt
  check_segments device (segment ∷ segments) =
      reject (is_empty segment) empty_segment
      >> (check_characters device segment
          >> (reject (is_windows device && (ends_with b' ' segment || ends_with b'.' segment))
                bad_ending
              >> (reject (is_windows device && is_windows_reserved_name segment) reserved_name
                  >> check_segments device segments)))

  unfoldable pub validate_device_target_path : DeviceProfile → Text → Result DeviceError Unit
  unfolding check_segments target_length
  validate_device_target_path device value =
      let target = trim value in
      reject (is_empty target) empty_target
      >> (reject (exceeds device.max_path (target_length device target)) too_long
          >> check_segments device (split b'/' target))

-- The items that the loop has passed, in their order, the map `seen` and the plan's conflicts.
pub record Preflight : Type 0 where
  pub items : List PlanItem
  pub seen : Map ℕ
  pub conflicts : List Text

abbrev pub is_live : PlanItem → Bool
is_live item = not ((item.action =ᵗ codes "missing") || (item.action =ᵗ codes "conflict"))

abbrev pub in_conflict : Text → PlanItem → PlanItem
in_conflict detail item = record item { action = codes "conflict"; detail = detail }

abbrev pub collides : Text → Text
collides target =
    codes "target collides with " ++ target ++ codes " on a case-insensitive filesystem"

abbrev pub retire : Text → PlanItem → PlanItem
retire target previous =
    if is_live previous then in_conflict (collides target) previous else previous

-- plan.Items[index].Target
unfoldable pub target_at : ℕ → List PlanItem → Option Text
target_at n [] = none
target_at zero (item ∷ items) = some item.target
target_at (suc n) (item ∷ items) = target_at n items

unfoldable pub update_at : ℕ → (PlanItem → PlanItem) → List PlanItem → List PlanItem
update_at n f [] = []
update_at zero f (item ∷ items) = f item ∷ items
update_at (suc n) f (item ∷ items) = item ∷ update_at n f items

abbrev pub with_target : ℕ → Option Text → Option (ℕ × Text)
with_target index none = none
with_target index (some target) = some (index, target)

abbrev pub pointed : Option ℕ → List PlanItem → Option (ℕ × Text)
pointed none items = none
pointed (some index) items = with_target index (target_at index items)

unfoldable pub key_of : ⦃lib : Stdlib⦄ → DeviceProfile → Text → Text
key_of ⦃lib⦄ device target = if device.case_sensitive then target else lower target

module _ ⦃lib : Stdlib⦄ (device : DeviceProfile) (describe : DeviceError → Text) where
  -- The rest of the loop's body, once the target is accepted.
  unfoldable pub look_up : PlanItem → Option (ℕ × Text) → Preflight → Preflight
  unfolding key_of update_at
  look_up item none p = record p {
    items = p.items ++ item ∷ [];
    seen = insert (key_of device item.target) (length p.items) p.seen;
  }
  look_up item (some (index, target)) p =
      if target =ᵗ item.target
      then record p {
        items = p.items ++ item ∷ [];
        seen = insert (key_of device item.target) (length p.items) p.seen;
      }
      else record p {
        items =
            update_at index (retire item.target) p.items ++ in_conflict (collides target) item ∷ [];
        conflicts = p.conflicts ++ target ∷ item.target ∷ [];
      }

  unfoldable pub check_target : PlanItem → Result DeviceError Unit → Preflight → Preflight
  unfolding look_up key_of
  check_target item (err e) p = record p {
    items = p.items ++ in_conflict (describe e) item ∷ [];
    conflicts = p.conflicts ++ item.target ∷ [];
  }
  check_target item (ok u) p =
      look_up item (pointed (lookup (key_of device item.target) p.seen) p.items) p

  unfoldable pub check_item : PlanItem → Preflight → Preflight
  unfolding check_target validate_device_target_path
  check_item item p =
      if is_live item
      then check_target item (validate_device_target_path device item.target) p
      else record p { items = p.items ++ item ∷ [] }

  unfoldable pub check_items : List PlanItem → Preflight → Preflight
  unfolding check_item
  check_items [] p = p
  check_items (item ∷ items) p = check_items items (check_item item p)

  -- The conflicts and the warnings about the device itself.
  unfoldable pub device_warnings : Text → Text → List (Text × Text)
  device_warnings target mode =
      (if device.enabled
        then []
        else (
          codes "device-profile:" ++ device.id,
          codes "device profile " ++ device.id ++ codes " is disabled",
        )
          ∷ [])
      ++ (if target =ᵗ device.target
          then []
          else (
            codes "device-profile:" ++ device.id,
            codes "device profile "
                ++ device.id
                ++ codes " targets "
                ++ device.target
                ++ codes ", not "
                ++ target,
          )
            ∷ [])
      ++ (if (mode =ᵗ codes "hardlink") && not device.supports_hardlink
          then (
            codes "file-mode:hardlink",
            codes "device profile " ++ device.id ++ codes " does not support hard links",
          )
            ∷ []
          else [])

  unfoldable pub apply_device_preflight : Text → Text → Plan → Plan
  unfolding check_items device_warnings
  apply_device_preflight target mode plan =
      let found = device_warnings target mode in
      let start : Preflight = record {
        items = [];
        seen = [];
        conflicts = plan.conflicts ++ map (λ w. w.0) found;
      } in
      let passed = check_items plan.items start in
      record plan {
        items = passed.items;
        conflicts = passed.conflicts;
        warnings = plan.warnings ++ map (λ w. w.1) found;
      }
