-- ===== src/Devices/Reads.antt =====
-- What src/core/device/Registry.js reads after it has written a device.
use mathlib.Core.Path.{subst}
use canvas_server.Prelude.{
  ◌≡◌, ◌≢◌, refl, inl, inr, true, false, Option, some, [], arith, Text, text_eq, text_eq_iff,
  if◌then◌else◌, lookup, insert, lookup-insert, text_key, Bool-cases, Sum-cases, inr-inj,
  inl-ne-inr, sym, ◌∙◌, ap, trim, or_else,
}
use canvas_server.Workspaces.Indexes.Found.{truthy_of_filled}
use canvas_server.Devices.{
  Device, Devices, Input, Error, Outcome, read_devices, require_device_id, build_device_record,
  get_device, upsert_device,
}

-- What a write that returns a device promises: the device reads back under its id, every other id
-- reads as before, and the time of creation of a device that was there is kept.
pub record IsWritten (d : Device) (file file' : Option Devices) : Type 0 where
  pub has_id : d.device_id ≢ []
  pub reads :
      (q : Text)
      → q ≢ []
      → get_device true q file'
        ≡ (if text_eq d.device_id q then inr (some d) else get_device true q file)
  pub created :
      (old : Device)
      → lookup d.device_id (read_devices file) ≡ some old
      → old.created_at ≢ []
      → d.created_at ≡ old.created_at

required-filled : (o : Option Text) (id : Text) → require_device_id o ≡ inr id → id ≢ []
unfolding require_device_id
required-filled o id h empty = elim (Bool-cases (text_eq (trim (or_else o [])) [])) [
  | inl blank ↦ inl-ne-inr (rw (blank, require_device_id) at h)
  | inr filled ↦
      let same : trim (or_else o []) ≡ id = inr-inj (rw (filled, require_device_id) at h) in
      ground (arith, text_eq_iff (trim (or_else o [])) [], filled, same ∙ empty)
]

read-insert :
    (id q : Text) (d : Device) (file : Option Devices)
    → q ≢ []
    → get_device true q (some (insert id d (read_devices file)))
      ≡ (if text_eq id q then inr (some d) else get_device true q file)
unfolding get_device
read-insert id q d file solid =
    let no : text_eq q [] ≡ false = ground (arith, text_eq_iff q [], solid) in
    rw (no, get_device)
      (ap inr (lookup-insert id q d (read_devices file))
        ∙ elim (Bool-cases (text_eq id q)) [ inl same ↦ rw same refl | inr other ↦ rw other refl ])

created-kept :
    (now id : Text) (input : Input) (old : Device)
    → old.created_at ≢ []
    → (build_device_record now id input (some old)).created_at ≡ old.created_at
unfolding build_device_record
created-kept now id input old has_time = rw (truthy_of_filled old.created_at has_time) refl

stored-IsWritten :
    (now id : Text) (input : Input) (file : Option Devices)
    → id ≢ []
    → IsWritten (build_device_record now id input (lookup id (read_devices file))) file (
        some (
          insert id
            (build_device_record now id input (lookup id (read_devices file)))
            (read_devices file)))
unfolding build_device_record get_device
stored-IsWritten now id input file filled = record {
  has_id = filled;
  reads = λ q solid. read-insert id q _ file solid;
  created = λ old there has_time.
      subst (λ o. (build_device_record now id input o).created_at ≡ old.created_at) (sym there)
        (created-kept now id input old has_time);
}

inr-of_outcome :
    {d e : Device} {f g : Option Devices}
    → ◌≡◌ {A = Outcome} (inr e, f) (inr d, g)
    → (e ≡ d) × (f ≡ g)
inr-of_outcome h = (inr-inj (ap (λ r. r.0) h), ap (λ r. r.1) h)

inl-ne-outcome :
    {x : Error} {d : Device} {f g : Option Devices} → ◌≡◌ {A = Outcome} (inl x, f) (inr d, g) → ⊥
inl-ne-outcome h = inl-ne-inr (ap (λ r. r.0) h)

-- A device that `upsertDevice` returns reads back under its id, which is not empty; every other id
-- reads as before; and a device that was there keeps its time of creation.
pub upsert_device-IsWritten :
    (now : Text) (input : Input) (file file' : Option Devices) (d : Device)
    → upsert_device now true input file ≡ (inr d, file')
    → IsWritten d file file'
unfolding upsert_device
upsert_device-IsWritten now input file file' d h =
    elim (Sum-cases (require_device_id input.device_id)) [
      | inl (x, bad) ↦ absurd (inl-ne-outcome (rw (bad, upsert_device) at h))
      | inr (id, ok) ↦
          let (same, now_there) = inr-of_outcome (rw (ok, upsert_device) at h) in
          subst (λ e. IsWritten e file file') same
            (subst (IsWritten _ file) now_there
              (stored-IsWritten now id input file (required-filled input.device_id id ok)))
    ]
