-- ===== src/Utxo/Sign/Chain.antt =====
-- signing/utxo/tx.go: ConcatSignature reads the signatures that Sign made.
use wallet_sdk.Common.{
  ℕ, ◌+◌, ◌<◌, ◌≡◌, refl, arith, false, some, List, [], ◌∷◌, ◌++◌, ◌==◌, ltb, Bytes, bytes_eq, All,
  All-append, ap, sym, ◌∙◌, map, length, append_assoc, append-nil, ok, guard, or_error, >>=-eq-ok,
  or_error-eq-ok,
}
use wallet_sdk.Go.Hex.{hex_decode, hex_encode, decoded, hex_decode-hex_encode}
use wallet_sdk.Utxo.Types
use wallet_sdk.Utxo.Types.{TxBuilder, TxError, network_btc_p2tr}
use wallet_sdk.Utxo.Sign.{Signer, join, split, decode_all, sign_loop, sign}
use wallet_sdk.Utxo.Sign.Text.{IsPlain, split-join, hex_encode-IsPlain}

IsBytes : Bytes → Type 0
IsBytes bs = All (λ b. b < 256) bs

-- The texts behind the first one.
tail_of : List Bytes → Bytes
tail_of [] = []
tail_of (s ∷ ss) = b'_' ∷ (hex_encode s ++ tail_of ss)

join-tail_of : (t : Bytes) (ss : List Bytes) → join (t ∷ map hex_encode ss) ≡ t ++ tail_of ss
unfolding join tail_of
join-tail_of t [] = sym (append-nil t)
join-tail_of t (s ∷ ss) = ap (λ r. t ++ b'_' ∷ r) (join-tail_of (hex_encode s) ss)

decode_all-hex_encode : (ss : List Bytes) → All IsBytes ss → decode_all (map hex_encode ss) ≡ ok ss
unfolding decode_all IsBytes
decode_all-hex_encode [] h = refl
decode_all-hex_encode (s ∷ ss) (hs, hss) =
    rw (hex_decode-hex_encode s hs, decode_all-hex_encode ss hss) refl

All-IsPlain : (ss : List Bytes) → All IsBytes ss → All IsPlain (map hex_encode ss)
unfolding IsBytes
All-IsPlain [] h = tt
All-IsPlain (s ∷ ss) (hs, hss) = (hex_encode-IsPlain s hs, All-IsPlain ss hss)

module _ (lib : Signer) where
  open lib use {ecdsa_sign}

  -- Each text is the hexadecimal text of a hash, and its signature is that of the key with the
  -- byte of SigHashAll behind it.
  pub data SignedBy (private_key : Bytes) : List Bytes → List Bytes → Type 0 where
    no_more : SignedBy private_key [] []
    one_more :
        {v hash : Bytes} {vs ss : List Bytes}
        → decoded (hex_decode v) ≡ some hash
        → SignedBy private_key vs ss
        → SignedBy private_key (v ∷ vs) ((ecdsa_sign private_key hash ++ 1 ∷ []) ∷ ss)

  signed-bytes :
      (private_key : Bytes) {vs ss : List Bytes}
      → ((hash : Bytes) → All (λ b. b < 256) (ecdsa_sign private_key hash))
      → SignedBy private_key vs ss
      → All IsBytes ss
  unfolding IsBytes
  signed-bytes private_key real no_more = tt
  signed-bytes private_key real (one_more {hash = hash} e more) = (
    All-append (λ b. b < 256) (ecdsa_sign private_key hash) (1 ∷ []) (real hash) (omega arith, tt),
    signed-bytes private_key real more,
  )

  sign_loop-tail_of :
      (private_key : Bytes) (idx : ℕ) (text : Bytes) (vs : List Bytes) (result : Bytes)
      → 0 < idx
      → sign_loop lib private_key idx text vs ≡ ok result
      → (ss : List Bytes) × SignedBy private_key vs ss × (result ≡ text ++ tail_of ss)
  unfolding sign_loop tail_of
  sign_loop-tail_of private_key idx text [] result pos h =
      let same : text ≡ result = cc in ([], no_more, sym same ∙ sym (append-nil text))
  sign_loop-tail_of private_key idx text (v ∷ vs) result pos h =
      let (hash, e, h1) =
        >>=-eq-ok (or_error (decoded (hex_decode v)) Types.bad_sig_hash_hex) _ h in
      let sig = ecdsa_sign private_key hash ++ 1 ∷ [] in
      let later : (idx == 0) ≡ false = ground arith in
      let (ss, by, same) =
        sign_loop-tail_of private_key (idx + 1) (text ++ b'_' ∷ hex_encode sig) vs result
          (omega arith) (rw later at h1) in
      (
        sig ∷ ss,
        one_more (or_error-eq-ok _ Types.bad_sig_hash_hex e) by,
        same ∙ append_assoc text (b'_' ∷ hex_encode sig) (tail_of ss),
      )

  sign_loop-join :
      (private_key : Bytes) (vs : List Bytes) (result : Bytes)
      → 0 < length vs
      → sign_loop lib private_key 0 [] vs ≡ ok result
      → (ss : List Bytes) × SignedBy private_key vs ss
        × (0 < length ss)
        × (result ≡ join (map hex_encode ss))
  unfolding sign_loop
  sign_loop-join private_key [] result some_hashes h = absurd (omega arith)
  sign_loop-join private_key (v ∷ vs) result some_hashes h =
      let (hash, e, h1) =
        >>=-eq-ok (or_error (decoded (hex_decode v)) Types.bad_sig_hash_hex) _ h in
      let sig = ecdsa_sign private_key hash ++ 1 ∷ [] in
      let (ss, by, same) =
        sign_loop-tail_of private_key 1 (hex_encode sig) vs result (omega arith) h1 in
      (
        sig ∷ ss,
        one_more (or_error-eq-ok _ Types.bad_sig_hash_hex e) by,
        omega arith,
        same ∙ sym (join-tail_of (hex_encode sig) ss),
      )

  split-signatures :
      (ss : List Bytes)
      → 0 < length ss
      → All IsBytes ss
      → split (join (map hex_encode ss)) ≡ map hex_encode ss
  split-signatures [] pos h = absurd (omega arith)
  split-signatures (s ∷ ss) pos h =
      split-join (hex_encode s) (map hex_encode ss) (All-IsPlain (s ∷ ss) h)

  -- What Sign returns on a network that is not taproot, ConcatSignature splits and decodes into one signature for each hash
  -- of the builder, in their order, if the signatures of the library are bytes.
  pub sign-split :
      (tx : TxBuilder) (private_key text : Bytes)
      → ((hash : Bytes) → All (λ b. b < 256) (ecdsa_sign private_key hash))
      → bytes_eq tx.network network_btc_p2tr ≡ false
      → sign lib tx private_key ≡ ok text
      → (ss : List Bytes) × SignedBy private_key tx.sig_hash ss × (decode_all (split text) ≡ ok ss)
  unfolding sign
  sign-split tx private_key text real plain h =
      let (done, e, h1) =
        >>=-eq-ok (guard (ltb 0 (length tx.sig_hash)) Types.sig_hash_missing) _ h in
      let pos : 0 < length tx.sig_hash = ground (arith, e) in
      let (ss, by, some_sigs, same) =
        sign_loop-join private_key tx.sig_hash text pos (rw plain at h1) in
      let bytes = signed-bytes private_key real by in
      (ss, by, rw (same, split-signatures ss some_sigs bytes) (decode_all-hex_encode ss bytes))
