-- ===== src/Aptos/Bcs/Layout.antt =====
-- signing/aptos/bcs.go: the bytes that each method appends.
use wallet_sdk.Common.{◌≡◌, List, [], ◌∷◌, ◌++◌, Bytes, length, append_assoc, append-nil, sym, ◌∙◌}
use wallet_sdk.Go.Words.{le64}
use wallet_sdk.Codec.Uvarint.{uvarint, len_prefix, all_bytes}
use wallet_sdk.Aptos.Bcs.{
  BcsEncoder, u8, u64, uleb128, raw, len_prefixed, str, TypeTag, TypeTags, struct, nil, cons,
  count_tags, encode_tag, encode_tags, EntryFunction, encode_args, encode_payload, RawTransaction,
  encode,
}

unfoldable mutual
  pub tag_bytes : TypeTag → Bytes
  tag_bytes (struct addr module_name name type_args) =
      uvarint 7
      ++ (addr
          ++ (len_prefix module_name
              ++ (len_prefix name ++ (uvarint (count_tags type_args) ++ tags_bytes type_args))))

  pub tags_bytes : TypeTags → Bytes
  tags_bytes nil = []
  tags_bytes (cons t ts) = tag_bytes t ++ tags_bytes ts

buf-len_prefixed : (b : Bytes) (e : BcsEncoder) → (len_prefixed b e).buf ≡ e.buf ++ len_prefix b
unfolding len_prefixed
buf-len_prefixed b e = append_assoc e.buf (uvarint (length b)) b

mutual
  unfolding encode_tag encode_tags tag_bytes tags_bytes raw uleb128 str

  buf-encode_tag : (t : TypeTag) (e : BcsEncoder) → (encode_tag t e).buf ≡ e.buf ++ tag_bytes t
  buf-encode_tag (struct addr module_name name type_args) e =
      buf-encode_tags type_args _ ∙ simp (buf-len_prefixed, append_assoc)

  buf-encode_tags :
      (ts : TypeTags) (e : BcsEncoder) → (encode_tags ts e).buf ≡ e.buf ++ tags_bytes ts
  buf-encode_tags nil e = sym (append-nil e.buf)
  buf-encode_tags (cons t ts) e =
      buf-encode_tags ts (encode_tag t e) ∙ simp (buf-encode_tag t e, append_assoc)

buf-encode_args :
    (args : List Bytes) (e : BcsEncoder)
    → (encode_args args e).buf ≡ e.buf ++ all_bytes len_prefix args
unfolding encode_args
buf-encode_args [] e = sym (append-nil e.buf)
buf-encode_args (a ∷ more) e =
    buf-encode_args more (len_prefixed a e) ∙ simp (buf-len_prefixed, append_assoc)

unfoldable pub payload_bytes : EntryFunction → Bytes
payload_bytes p =
    uvarint 2
    ++ (p.module_addr
        ++ (len_prefix p.module_name
            ++ (len_prefix p.function
                ++ (uvarint (count_tags p.type_args)
                    ++ (tags_bytes p.type_args
                        ++ (uvarint (length p.args) ++ all_bytes len_prefix p.args))))))

buf-encode_payload :
    (p : EntryFunction) (e : BcsEncoder) → (encode_payload p e).buf ≡ e.buf ++ payload_bytes p
unfolding encode_payload payload_bytes raw uleb128 str
buf-encode_payload p e =
    buf-encode_args p.args _ ∙ simp (buf-encode_tags p.type_args, buf-len_prefixed, append_assoc)

unfoldable pub transaction_bytes : RawTransaction → Bytes
transaction_bytes r =
    r.sender
    ++ (le64 r.sequence_number
        ++ (payload_bytes r.payload
            ++ (le64 r.max_gas_amount
                ++ (le64 r.gas_unit_price
                    ++ (le64 r.expiration_timestamp_secs ++ r.chain_id ∷ [])))))

-- What rawTransaction.encode writes, field by field.
pub encode-transaction_bytes : (r : RawTransaction) → encode r ≡ transaction_bytes r
unfolding encode transaction_bytes raw u64 u8
encode-transaction_bytes r =
    let start : BcsEncoder = u64 r.sequence_number (raw r.sender (record { buf = [] })) in
    simp (buf-encode_payload r.payload start, append_assoc)
