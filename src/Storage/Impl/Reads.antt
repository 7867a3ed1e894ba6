-- ===== src/Storage/Impl/Reads.antt =====
-- The latest version of an object, and what a write leaves of it.
use ceresmeta.Etcd.{Content}
use ceresmeta.Storage.Paths.{is_name}
use ceresmeta.Storage.KeyPath.{fmt_id, latest_version}
use ceresmeta.Storage.KeyPath.Distinct.{fmt_id-is_name}
use ceresmeta.Common.{
  nat_eq, Option-cases, ℕ, ◌≡◌, refl, sym, ◌∙◌, inl, inr, true, Option, none, some, arith, Bytes,
}

latest_name : is_name latest_version ≡ true
latest_name = refl

-- The object at the key of its latest version.
abbrev pub read : {A : Type 0} → (Bytes → Option A) → (Bytes → Bytes) → Content → Option A
read un key ct = elim (ct (key latest_version)) [
  | none ↦ none
  | some w ↦ elim (ct (key w)) [ none ↦ none | some b ↦ un b ]
]

-- A latest version is the version of an object that is there.
abbrev pub Versioned :
    {A : Type 0} → (Bytes → Option A) → (A → ℕ) → (Bytes → Bytes) → Content → Type 0
Versioned {A} un version key ct =
    (w : Bytes)
    → ct (key latest_version) ≡ some w
    → (v : A) × (b : Bytes) × (w ≡ fmt_id (version v)) × (ct (key w) ≡ some b) × (un b ≡ some v)

-- Equal stores at the names of an object read equally, and stay versioned.
pub read_same :
    {A : Type 0} (un : Bytes → Option A) (version : A → ℕ) (key : Bytes → Bytes) (ct ct' : Content)
    → Versioned un version key ct
    → ((x : Bytes) → is_name x ≡ true → ct' (key x) ≡ ct (key x))
    → read un key ct' ≡ read un key ct
read_same un version key ct ct' valid same = elim (Option-cases (ct (key latest_version))) [
  | inl e ↦ ground (arith, same latest_version latest_name, e)
  | inr (w, e) ↦
      let (v, b, p, _, _) = valid w e in
      ground (arith, same latest_version latest_name, e, same w (rw p (fmt_id-is_name (version v))))
]

pub read_ext :
    {A : Type 0} (un : Bytes → Option A) (key : Bytes → Bytes) (ct ct' : Content)
    → ((j : Bytes) → ct' j ≡ ct j)
    → read un key ct' ≡ read un key ct
read_ext un key ct ct' same = elim (Option-cases (ct (key latest_version))) [
  | inl e ↦ ground (arith, same (key latest_version), e)
  | inr (w, e) ↦ ground (arith, same (key latest_version), e, same (key w))
]

pub same-Versioned :
    {A : Type 0} (un : Bytes → Option A) (version : A → ℕ) (key : Bytes → Bytes) (ct ct' : Content)
    → Versioned un version key ct
    → ((x : Bytes) → is_name x ≡ true → ct' (key x) ≡ ct (key x))
    → Versioned un version key ct'
same-Versioned un version key ct ct' valid same w e =
    let (v, b, p, q, r) = valid w (sym (same latest_version latest_name) ∙ e) in
    (v, b, p, same w (rw p (fmt_id-is_name (version v))) ∙ q, r)

-- A version that was written is read.
pub read_written :
    {A : Type 0} (un : Bytes → Option A) (key : Bytes → Bytes) (ct : Content) (w b : Bytes) (v : A)
    → ct (key latest_version) ≡ some w
    → ct (key w) ≡ some b
    → un b ≡ some v
    → read un key ct ≡ some v
read_written un key ct w b v p q r = ground (arith, p, q, r)

pub written-Versioned :
    {A : Type 0} (un : Bytes → Option A) (version : A → ℕ) (key : Bytes → Bytes) (ct : Content)
    (b : Bytes) (v : A)
    → ct (key latest_version) ≡ some (fmt_id (version v))
    → ct (key (fmt_id (version v))) ≡ some b
    → un b ≡ some v
    → Versioned un version key ct
written-Versioned un version key ct b v p q r w e =
    let same : fmt_id (version v) ≡ w = cc in (v, b, sym same, rw (sym same) q, r)
