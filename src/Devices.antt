-- ===== src/Devices.antt =====
-- src/core/device/Registry.js: the devices of one user. The file devices.json is an optional dictionary, none if it is
-- missing or cannot be read; `located` says whether the user's e-mail, and so the file's path, is known.
pub mod Reads
mod Tests
use canvas_server.Prelude.{
  ℕ, Bool, true, false, Option, none, some, List, [], ◌∷◌, ◌++◌, Text, text_eq, or_else, trim,
  if◌then◌else◌, ◌⊎◌, inl, inr, lookup, insert, text_key, map, find,
}
use canvas_server.Workspaces.Indexes.Defs.{truthy}

-- A field that an object may lack, or have with a value that is no text.
pub data Field : Type 0 where
  absent : Field
  given : Option Text → Field

pub record Input : Type 0 where
  pub device_id : Option Text
  pub name : Option Text
  pub description : Field
  pub platform : Option Text
  pub arch : Option Text
  pub type : Option Text
  pub username : Option Text
  pub hostname : Option Text
  pub fqdn : Option Text
  pub alias : Option Text
  pub created_at : Option Text
  pub last_seen : Option Text

pub record Device : Type 0 where
  pub device_id : Text
  pub name : Text
  pub description : Option Text
  pub platform : Option Text
  pub arch : Option Text
  pub type : Option Text
  pub username : Option Text
  pub hostname : Option Text
  pub fqdn : Option Text
  pub alias : Option Text
  pub created_at : Text
  pub updated_at : Text
  pub last_seen : Text

abbrev pub Devices : Type 0
Devices = List (Text × Device)

pub data Error : Type 0 where
  id_required no_path device_not_found : Error

-- `a ?? b`
abbrev pub first_given : Option Text → Option Text → Option Text
first_given none b = b
first_given (some a) b = some a

-- `a || b`
abbrev pub first_truthy : Option Text → Option Text → Option Text
first_truthy a b = elim (truthy a) [ none ↦ b | some t ↦ some t ]

abbrev pub of_existing : {A : Type 0} → (Device → Option A) → Option Device → Option A
of_existing f none = none
of_existing f (some d) = f d

-- `input.description.trim() || undefined` of a text, and what there was if there is no field
abbrev pub described : Field → Option Device → Option Text
described absent existing = of_existing (λ d. d.description) existing
described (given none) existing = none
described (given (some t)) existing = truthy (some (trim t))

-- `${username}@${hostname}`, if neither is empty
abbrev pub login : Option Text → Option Text → Option Text → Option Text
login none h rest = rest
login (some u) none rest = rest
login (some u) (some h) rest =
    if text_eq u [] then rest else if text_eq h [] then rest else some (u ++ b'@' ∷ h)

-- `#requireDeviceId`
unfoldable pub require_device_id : Option Text → Error ⊎ Text
require_device_id id =
    let normalized = trim (or_else id []) in
    if text_eq normalized [] then inl id_required else inr normalized

-- `#buildDeviceRecord` for an id that is required already
unfoldable pub build_device_record : Text → Text → Input → Option Device → Device
build_device_record now id input existing =
    let username = first_given input.username (of_existing (λ d. d.username) existing) in
    let hostname = first_given input.hostname (of_existing (λ d. d.hostname) existing) in
    record {
      device_id = id;
      name = trim (
          or_else
            (first_truthy input.name
              (first_truthy (of_existing (λ d. some d.name) existing) (truthy hostname)))
            (or_else input.device_id []));
      description = described input.description existing;
      platform = first_given input.platform (of_existing (λ d. d.platform) existing);
      arch = first_given input.arch (of_existing (λ d. d.arch) existing);
      type = first_given input.type (of_existing (λ d. d.type) existing);
      username = username;
      hostname = hostname;
      fqdn = first_given input.fqdn (of_existing (λ d. d.fqdn) existing);
      alias =
          first_given input.alias (login username hostname (of_existing (λ d. d.alias) existing));
      created_at =
          or_else
            (first_truthy (of_existing (λ d. some d.created_at) existing) (truthy input.created_at))
            now;
      updated_at = now;
      last_seen = or_else (truthy input.last_seen) now;
    }

-- `#readDevices`
abbrev pub read_devices : Option Devices → Devices
read_devices file = or_else file []

abbrev pub device_values : Devices → List Device
device_values [] = []
device_values ((id, d) ∷ rest) = d ∷ device_values rest

-- `listDevices`
unfoldable pub list_devices : Bool → Option Devices → Error ⊎ List Device
list_devices located file = if located then inr (device_values (read_devices file)) else inl no_path

-- `getDevice`
unfoldable pub get_device : Bool → Text → Option Devices → Error ⊎ Option Device
get_device located id file =
    if text_eq id []
    then inr none
    else if located
    then inr (lookup id (read_devices file))
    else inl no_path

abbrev has_alias : Text → Device → Bool
has_alias alias d = elim d.alias [ none ↦ false | some a ↦ text_eq a alias ]

-- `getDeviceByAlias`
unfoldable pub get_device_by_alias : Bool → Text → Option Devices → Error ⊎ Option Device
get_device_by_alias located alias file =
    if text_eq alias []
    then inr none
    else if located
    then inr (find (has_alias alias) (device_values (read_devices file)))
    else inl no_path

abbrev pub Outcome : Type 0
Outcome = (Error ⊎ Device) × Option Devices

-- The record under its id, in the file.
abbrev pub stored : Text → Device → Option Devices → Outcome
stored id d file = (inr d, some (insert id d (read_devices file)))

abbrev pub upserted : Text → Bool → Input → Option Devices → Error ⊎ Text → Outcome
upserted now located input file (inl e) = (inl e, file)
upserted now located input file (inr id) =
    if located
    then stored id (build_device_record now id input (lookup id (read_devices file))) file
    else (inl no_path, file)

-- `upsertDevice`
unfoldable pub upsert_device : Text → Bool → Input → Option Devices → Outcome
upsert_device now located input file =
    upserted now located input file (require_device_id input.device_id)

abbrev pub kept_field : Field → Option Text → Field
kept_field (given t) old = given t
kept_field absent none = absent
kept_field absent (some t) = given (some t)

-- `{ ...existing, ...patch, deviceId }`
unfoldable pub patched : Text → Device → Input → Input
patched id d patch = record {
  device_id = some id;
  name = first_given patch.name (some d.name);
  description = kept_field patch.description d.description;
  platform = first_given patch.platform d.platform;
  arch = first_given patch.arch d.arch;
  type = first_given patch.type d.type;
  username = first_given patch.username d.username;
  hostname = first_given patch.hostname d.hostname;
  fqdn = first_given patch.fqdn d.fqdn;
  alias = first_given patch.alias d.alias;
  created_at = first_given patch.created_at (some d.created_at);
  last_seen = first_given patch.last_seen (some d.last_seen);
}

abbrev pub rebuilt : Text → Text → Input → Option Devices → Option Device → Outcome
rebuilt now id patch file none = (inl device_not_found, file)
rebuilt now id patch file (some d) =
    stored id (build_device_record now id (patched id d patch) (some d)) file

abbrev pub updated : Text → Bool → Input → Option Devices → Error ⊎ Text → Outcome
updated now located patch file (inl e) = (inl e, file)
updated now located patch file (inr id) =
    if located
    then rebuilt now id patch file (lookup id (read_devices file))
    else (inl no_path, file)

-- `updateDevice`
unfoldable pub update_device : Text → Bool → Option Text → Input → Option Devices → Outcome
update_device now located id patch file = updated now located patch file (require_device_id id)

abbrev pub shown : Outcome → (Error ⊎ Option Device) × Option Devices
shown (inl e, file) = (inl e, file)
shown (inr d, file) = (inr (some d), file)

abbrev pub touched :
    Text
    → Bool
    → Text
    → Input
    → Option Devices
    → Error ⊎ Option Device
    → (Error ⊎ Option Device) × Option Devices
touched now located id patch file (inl e) = (inl e, file)
touched now located id patch file (inr none) = (inr none, file)
touched now located id patch file (inr (some d)) =
    shown (update_device now located (some id) patch file)

-- `touchDevice`
unfoldable pub touch_device :
    Text → Bool → Text → Input → Option Devices → (Error ⊎ Option Device) × Option Devices
touch_device now located id patch file =
    touched now located id patch file (get_device located id file)
