-- ===== src/Aptos/Bcs/Unique.antt =====
-- signing/aptos/bcs.go: the bytes that are signed determine the transaction.
use wallet_sdk.Common.{
  ℕ, ◌^◌, ◌<◌, ◌≡◌, refl, arith, [], ◌++◌, Bytes, length, append_assoc, append-nil, sym, ◌∙◌, All,
}
use wallet_sdk.Go.Words.{le64}
use wallet_sdk.Codec.Split.{Splits, peel, fixed-Splits, byte-Splits, le64-Splits}
use wallet_sdk.Codec.Uvarint.{
  uvarint, uvarint-Splits, len_prefix, len_prefix-Splits, all_bytes, all_bytes-split,
}
use wallet_sdk.Aptos.Bcs.{
  TypeTag, TypeTags, struct, nil, cons, count_tags, EntryFunction, RawTransaction, encode,
}
use wallet_sdk.Aptos.Bcs.Layout.{
  tag_bytes, tags_bytes, payload_bytes, transaction_bytes, encode-transaction_bytes,
}

-- The lengths that Go's types and a uint64 give.
abbrev pub Fits : Bytes → Type 0
Fits b = length b < 2 ^ 64

abbrev pub IsU64 : ℕ → Type 0
IsU64 v = v < 2 ^ 64

mutual
  pub data IsTag : TypeTag → Type 0 where
    is_struct :
        {addr module_name name : Bytes} {ts : TypeTags}
        → length addr ≡ 32
        → Fits module_name
        → Fits name
        → IsTags ts
        → count_tags ts < 2 ^ 64
        → IsTag (struct addr module_name name ts)

  pub data IsTags : TypeTags → Type 0 where
    is_nil : IsTags nil
    is_cons : {t : TypeTag} {ts : TypeTags} → IsTag t → IsTags ts → IsTags (cons t ts)

mutual
  unfolding tag_bytes tags_bytes count_tags

  tag-split :
      (t u : TypeTag) (r s : Bytes)
      → IsTag t
      → IsTag u
      → tag_bytes t ++ r ≡ tag_bytes u ++ s
      → (t ≡ u) × (r ≡ s)
  tag-split (struct a m n ts) (struct b o p us) r s (is_struct ha hm hn hts ct)
        (is_struct hb ho hp hus cu) e =
      let (e0, r0) = peel IsU64 uvarint uvarint-Splits 7 7 _ _ r s (omega arith) (omega arith) e in
      let (e1, r1) = peel (λ x. length x ≡ 32) (λ x. x) (fixed-Splits 32) a b _ _ r s ha hb r0 in
      let (e2, r2) = peel Fits len_prefix len_prefix-Splits m o _ _ r s hm ho r1 in
      let (e3, r3) = peel Fits len_prefix len_prefix-Splits n p _ _ r s hn hp r2 in
      let (e4, r4) = peel IsU64 uvarint uvarint-Splits _ _ _ _ r s ct cu r3 in
      let (e5, r5) = tags-split ts us r s hts hus e4 r4 in (cc (e1, e2, e3, e5), r5)

  tags-split :
      (ts us : TypeTags) (r s : Bytes)
      → IsTags ts
      → IsTags us
      → count_tags ts ≡ count_tags us
      → tags_bytes ts ++ r ≡ tags_bytes us ++ s
      → (ts ≡ us) × (r ≡ s)
  tags-split nil nil r s h k c e = (refl, e)
  tags-split nil (cons u us) r s h k c e = absurd (omega arith)
  tags-split (cons t ts) nil r s h k c e = absurd (omega arith)
  tags-split (cons t ts) (cons u us) r s (is_cons ht hts) (is_cons hu hus) c e =
      let (e1, r1) = tag-split t u (tags_bytes ts ++ r) (tags_bytes us ++ s) ht hu (
        sym (append_assoc (tag_bytes t) (tags_bytes ts) r)
        ∙ e
        ∙ append_assoc (tag_bytes u) (tags_bytes us) s) in
      let (e2, r2) = tags-split ts us r s hts hus (omega arith) r1 in (cc (e1, e2), r2)

pub record IsEntry (p : EntryFunction) : Type 0 where
  pub addr : length p.module_addr ≡ 32
  pub name : Fits p.module_name
  pub function : Fits p.function
  pub tags : IsTags p.type_args
  pub tag_count : count_tags p.type_args < 2 ^ 64
  pub args : All Fits p.args
  pub arg_count : length p.args < 2 ^ 64

payload-Splits : Splits IsEntry payload_bytes
unfolding payload_bytes
payload-Splits p q r s hp hq e =
    let (e0, r0) = peel IsU64 uvarint uvarint-Splits 2 2 _ _ r s (omega arith) (omega arith) e in
    let (e1, r1) =
      peel (λ x. length x ≡ 32) (λ x. x) (fixed-Splits 32) p.module_addr q.module_addr _ _ r s
        hp.addr hq.addr r0 in
    let (e2, r2) =
      peel Fits len_prefix len_prefix-Splits p.module_name q.module_name _ _ r s hp.name hq.name
        r1 in
    let (e3, r3) =
      peel Fits len_prefix len_prefix-Splits p.function q.function _ _ r s hp.function hq.function
        r2 in
    let (e4, r4) =
      peel IsU64 uvarint uvarint-Splits (count_tags p.type_args) (count_tags q.type_args) _ _ r s
        hp.tag_count hq.tag_count r3 in
    let rest_p : Bytes = uvarint (length p.args) ++ all_bytes len_prefix p.args in
    let rest_q : Bytes = uvarint (length q.args) ++ all_bytes len_prefix q.args in
    let (e5, r5) =
      tags-split p.type_args q.type_args (rest_p ++ r) (rest_q ++ s) hp.tags hq.tags e4 (
        sym (append_assoc (tags_bytes p.type_args) rest_p r)
        ∙ r4
        ∙ append_assoc (tags_bytes q.type_args) rest_q s) in
    let (e6, r6) =
      peel IsU64 uvarint uvarint-Splits (length p.args) (length q.args) _ _ r s hp.arg_count
        hq.arg_count r5 in
    let (e7, r7) =
      all_bytes-split len_prefix Fits len_prefix-Splits p.args q.args r s e6 hp.args hq.args r6 in
    (ground (arith, e1, e2, e3, e5, e7), r7)

-- A transaction of the ranges that Go's types give: an address has 32 bytes, a uint64 is below
-- 2^64, a uint8 below 256, and lengths fit a uint64.
pub record IsTransaction (r : RawTransaction) : Type 0 where
  pub sender : length r.sender ≡ 32
  pub sequence_number : IsU64 r.sequence_number
  pub payload : IsEntry r.payload
  pub max_gas_amount : IsU64 r.max_gas_amount
  pub gas_unit_price : IsU64 r.gas_unit_price
  pub expiration : IsU64 r.expiration_timestamp_secs
  pub chain_id : r.chain_id < 256

IsTransaction-Splits : Splits IsTransaction transaction_bytes
unfolding transaction_bytes
IsTransaction-Splits a b r s ha hb e =
    let (e0, r0) =
      peel (λ x. length x ≡ 32) (λ x. x) (fixed-Splits 32) a.sender b.sender _ _ r s ha.sender
        hb.sender e in
    let (e1, r1) =
      peel IsU64 le64 le64-Splits a.sequence_number b.sequence_number _ _ r s ha.sequence_number
        hb.sequence_number r0 in
    let (e2, r2) =
      peel IsEntry payload_bytes payload-Splits a.payload b.payload _ _ r s ha.payload hb.payload
        r1 in
    let (e3, r3) =
      peel IsU64 le64 le64-Splits a.max_gas_amount b.max_gas_amount _ _ r s ha.max_gas_amount
        hb.max_gas_amount r2 in
    let (e4, r4) =
      peel IsU64 le64 le64-Splits a.gas_unit_price b.gas_unit_price _ _ r s ha.gas_unit_price
        hb.gas_unit_price r3 in
    let (e5, r5) =
      peel IsU64 le64 le64-Splits a.expiration_timestamp_secs b.expiration_timestamp_secs _ _ r s
        ha.expiration hb.expiration r4 in
    let (e6, r6) = byte-Splits a.chain_id b.chain_id r s ha.chain_id hb.chain_id r5 in
    (ground (arith, e0, e1, e2, e3, e4, e5, e6), r6)

-- Two transactions in their ranges that rawTransaction.encode writes as the same bytes are the
-- same transaction.
pub encode_injective :
    (a b : RawTransaction) → IsTransaction a → IsTransaction b → encode a ≡ encode b → a ≡ b
encode_injective a b ha hb e =
    let same : transaction_bytes a ≡ transaction_bytes b =
      sym (encode-transaction_bytes a) ∙ e ∙ encode-transaction_bytes b in
    let (eq, rest) =
      IsTransaction-Splits a b [] [] ha hb
        (append-nil (transaction_bytes a) ∙ same ∙ sym (append-nil (transaction_bytes b))) in
    eq
