-- ===== src/Filecoin/Address/Sound.antt =====
-- signing/filecoin/utils.go: what addressToBytes says of an address that it takes.
use wallet_sdk.Common.{
  ℕ, ◌-◌, ◌≤◌, ◌<◌, ◌≡◌, ◌⊎◌, refl, arith, Bool, true, false, ◌&&◌, ◌||◌, not, Option, none, some,
  [], ◌∷◌, ◌++◌, ltb, ◌==◌, if◌then◌else◌, Bytes, bytes_eq, bytes_eq→eq, length, take, drop,
  take-append-drop, length-drop, ◌∙◌, ap, sym, Bool-cases, Option-cases, inl, inr,
}
use wallet_sdk.Go.Strconv.{parsed, parse_uint}
use wallet_sdk.Codec.Uvarint.{uvarint}
use wallet_sdk.Filecoin.Uvarint.Size.{to_uvarint_lem}
use wallet_sdk.Filecoin.Address.{
  Hashing, id_protocol, secp256k1, actor, bls, protocol_of, to_bytes, fits_protocol,
  validate_checksum, checked_address, hashed_address, id_address, address_to_bytes,
}

-- `if t { return nil }` before a result.
unless :
    {A : Type 0} (t : Bool) {x : Option A} {b : A}
    → (if t then none else x) ≡ some b
    → (t ≡ false) × (x ≡ some b)
unless true h = cc
unless false h = (refl, h)

-- What toBytes asks of the payload behind a checksum.
payload_length :
    (protocol : ℕ) (payload bytes : Bytes)
    → 0 < protocol
    → to_bytes protocol payload ≡ some bytes
    → (bytes ≡ protocol ∷ payload) × (length payload ≡ (if protocol == bls then 48 else 20))
payload_length protocol payload bytes p h = elim (Bool-cases (fits_protocol protocol payload)) [
  | inl e ↦ let same : some (protocol ∷ payload) ≡ some bytes = rw e at h in (cc, ground arith)
  | inr e ↦ let none' : none ≡ some bytes = rw e at h in cc
]

not-eq-false : (b : Bool) → not b ≡ false → b ≡ true
not-eq-false true h = refl
not-eq-false false h = cc

module _ (lib : Hashing) where
  open lib use {blake2b, base32_decode}

  validate_checksum-eq :
      (ingest expect : Bytes)
      → length expect ≡ 4
      → validate_checksum lib ingest expect ≡ true
      → blake2b 4 ingest ≡ some expect
  validate_checksum-eq ingest expect four h = elim (Option-cases (blake2b 4 ingest)) [
    | inl e ↦
        let empty : bytes_eq [] expect ≡ true = rw (validate_checksum, e) at h in
        ground (arith, bytes_eq→eq [] expect empty)
    | inr (digest, e) ↦
        e
        ∙ (let full : bytes_eq digest expect ≡ true = rw (validate_checksum, e) at h in
            ap some (bytes_eq→eq digest expect full))
  ]

  -- The payload and its checksum, as the address carries them.
  pub IsHashed : ℕ → Bytes → Bytes → Bytes → Type 0
  IsHashed protocol raw payload cksm =
      (base32_decode raw ≡ some (payload ++ cksm))
      × (blake2b 4 (protocol ∷ payload) ≡ some cksm)
      × (length cksm ≡ 4)
      × (length payload ≡ (if protocol == bls then 48 else 20))

  checked_address-IsHashed :
      (protocol : ℕ) (raw both bytes : Bytes)
      → 0 < protocol
      → base32_decode raw ≡ some both
      → checked_address lib protocol both ≡ some bytes
      → (payload : Bytes) × (cksm : Bytes) × (bytes ≡ protocol ∷ payload)
        × IsHashed protocol raw payload cksm
  unfolding IsHashed
  checked_address-IsHashed protocol raw both bytes p r h =
      let payload = take (length both - 4) both in
      let cksm = drop (length both - 4) both in
      let (long, h1) = unless (ltb (length both) 4) h in
      let (fits, h2) =
        unless ((protocol == secp256k1 || protocol == actor) && not (length payload == 20)) h1 in
      let (checks, h3) = unless (not (validate_checksum lib (protocol ∷ payload) cksm)) h2 in
      let four : length cksm ≡ 4 = ground (arith, length-drop (length both - 4) both, long) in
      let (same, size) = payload_length protocol payload bytes p h3 in
      (
        payload,
        cksm,
        same,
        (
          r ∙ ap some (sym (take-append-drop (length both - 4) both)),
          validate_checksum-eq (protocol ∷ payload) cksm four (not-eq-false _ checks),
          four,
          size,
        ),
      )

  -- What an address that is taken stands for, behind its two letters: an actor number, or a
  -- payload of 20 or 48 bytes that its checksum matches.
  pub Stands : ℕ → Bytes → Bytes → Type 0
  Stands letter raw bytes =
      ((letter ≡ b'0') × (id : ℕ) × (parsed (parse_uint raw) ≡ some id) × (bytes ≡ 0 ∷ uvarint id))
      ⊎ ((payload : Bytes) × (cksm : Bytes) × (bytes ≡ (letter - b'0') ∷ payload)
          × (b'0' < letter)
          × (letter ≤ b'3')
          × IsHashed (letter - b'0') raw payload cksm)

  -- A result that is nil, or bytes that the address tells.
  pub Told : ℕ → Bytes → Option (Option Bytes) → Type 0
  Told letter raw result =
      (result ≡ some none)
      ⊎ ((bytes : Bytes) × (result ≡ some (some bytes)) × Stands letter raw bytes)

  id_address-Told : (raw : Bytes) → Told b'0' raw (id_address lib raw)
  unfolding Told Stands
  id_address-Told raw = elim (Bool-cases (ltb 20 (length raw))) [
    | inl e ↦ inl (rw e refl)
    | inr e ↦ elim (Option-cases (parsed (parse_uint raw))) [
      | inl n ↦ inl (rw (e, n) refl)
      | inr (id, n) ↦ elim (Bool-cases (fits_protocol id_protocol (uvarint id))) [
        | inl f ↦
            inr (0 ∷ uvarint id, rw (e, n, (to_uvarint_lem id).1, f) refl, inl (refl, id, n, refl))
        | inr f ↦ inl (rw (e, n, (to_uvarint_lem id).1, f) refl)
      ]
    ]
  ]

  hashed_address-IsHashed :
      (protocol : ℕ) (raw bytes : Bytes)
      → 0 < protocol
      → hashed_address lib protocol raw ≡ some bytes
      → (payload : Bytes) × (cksm : Bytes) × (bytes ≡ protocol ∷ payload)
        × IsHashed protocol raw payload cksm
  hashed_address-IsHashed protocol raw bytes p h = elim (Option-cases (base32_decode raw)) [
    | inl e ↦ let none' : none ≡ some bytes = rw (hashed_address, e) at h in cc
    | inr (both, e) ↦
        checked_address-IsHashed protocol raw both bytes p e (rw (hashed_address, e) at h)
  ]

  hashed_address-Told :
      (letter : ℕ) (raw : Bytes)
      → b'0' < letter
      → letter ≤ b'3'
      → Told letter raw (some (hashed_address lib (letter - b'0') raw))
  unfolding Told Stands
  hashed_address-Told letter raw low high =
      elim (Option-cases (hashed_address lib (letter - b'0') raw)) [
        | inl e ↦ inl (ap some e)
        | inr (bytes, e) ↦
            let (payload, cksm, same, hashed) =
              hashed_address-IsHashed (letter - b'0') raw bytes (omega arith) e in
            inr (bytes, ap some e, inr (payload, cksm, same, low, high, hashed))
      ]

  protocol_cases :
      (p : ℕ)
      → (protocol_of p ≡ none) ⊎ ((b'0' ≤ p) × (p ≤ b'3') × (protocol_of p ≡ some (p - b'0')))
  protocol_cases p = ground arith

  tail-Told :
      (p : ℕ) (raw : Bytes)
      → b'0' ≤ p
      → p ≤ b'3'
      → Told p raw (
          if (p - b'0') == id_protocol
          then id_address lib raw
          else some (hashed_address lib (p - b'0') raw))
  tail-Told p raw low high = elim (Bool-cases ((p - b'0') == id_protocol)) [
    | inl z ↦ let letter : b'0' ≡ p = ground arith in rw z (rw (← letter) (id_address-Told raw))
    | inr z ↦ rw z (hashed_address-Told p raw (ground arith) high)
  ]

  -- addressToBytes returns on every text, and what it returns for an address that it takes is
  -- told by the address: it starts with "f", its second letter is the protocol, the rest is an
  -- actor number in decimal, of which the bytes are the uvarint, or decodes to a payload of the
  -- protocol's length and a checksum that is the hash of the protocol and the payload.
  pub address_to_bytes-Told :
      (addr : Bytes)
      → (address_to_bytes lib addr ≡ some none)
        ⊎ ((letter : ℕ) × (raw : Bytes) × (addr ≡ b'f' ∷ letter ∷ raw)
            × Told letter raw (address_to_bytes lib addr))
  unfolding address_to_bytes
  address_to_bytes-Told [] = inl refl
  address_to_bytes-Told (a ∷ []) = inl refl
  address_to_bytes-Told (a ∷ p ∷ []) = inl refl
  address_to_bytes-Told (a ∷ p ∷ r ∷ raw) = elim (Bool-cases (a == b'f')) [
    | inl e ↦ elim (protocol_cases p) [
      | inl n ↦ inl (rw (e, n) refl)
      | inr (low, high, n) ↦
          let first : a ≡ b'f' = ground arith in
          inr (
            p,
            r ∷ raw,
            ap (λ (c : ℕ). c ∷ p ∷ r ∷ raw) first,
            rw (e, n) (tail-Told p (r ∷ raw) low high),
          )
    ]
    | inr e ↦ inl (rw e refl)
  ]
