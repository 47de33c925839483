-- ===== src/Blob.antt =====
-- src/utils/blob.rs, the wire format of binary values, and `decode_blob_wire_format` of src/binding.rs.
-- The sniffing of the MIME type and base64 are crates: `infer_mime`, `base64_encode`, `base64_decode`.
use tabularis_postgresql_plu.Base.Decimal.{to_decimal, to_decimal-IsDigit, IsDigit}
use tabularis_postgresql_plu.Base.{
  ℕ, zero, suc, ◌≡◌, ◌≢◌, ◌≤◌, refl, sym, ap, ◌∙◌, Bool-cases, inl, inr, List, [], ◌∷◌, ◌++◌,
  Option, none, some, ◌>>=◌, Text, codes, ◌==◌, ltb, if◌then◌else◌, length, take, arith, All,
  All-mono,
}

abbrev pub max_blob_preview_size : ℕ
max_blob_preview_size = 10240

-- `strip_prefix`.
unfoldable pub strip_prefix : Text → Text → Option Text
strip_prefix [] s = some s
strip_prefix (c ∷ p) [] = none
strip_prefix (c ∷ p) (d ∷ s) = let rest = strip_prefix p s in if c == d then rest else none

-- What is behind the first of a character, the second half of `split_once`.
unfoldable pub behind : ℕ → Text → Option Text
behind c [] = none
behind c (d ∷ s) = let rest = behind c s in if d == c then some s else rest

unfoldable pub decode_blob_wire_format : (Text → Option (List ℕ)) → Text → Option (List ℕ)
unfolding strip_prefix behind
decode_blob_wire_format base64_decode value = do
  rest ← strip_prefix (codes "BLOB:") value
  after_size ← behind b':' rest
  base64_data ← behind b':' after_size
  base64_decode base64_data

-- `unwrap_or`.
unfoldable pub mime_or_default : Option Text → Text
mime_or_default (some mime) = mime
mime_or_default none = codes "application/octet-stream"

module _ (infer_mime : List ℕ → Option Text) (base64_encode : List ℕ → Text) where
  unfoldable pub mime_type : List ℕ → Text
  unfolding mime_or_default
  mime_type data_bytes = mime_or_default (infer_mime data_bytes)

  unfoldable pub wire_format : ℕ → List ℕ → Text
  unfolding mime_type to_decimal
  wire_format total_size data_bytes =
      codes "BLOB:"
      ++ (to_decimal total_size
          ++ (b':' ∷ (mime_type data_bytes ++ (b':' ∷ base64_encode data_bytes))))

  unfoldable pub encode_blob : List ℕ → Text
  unfolding wire_format
  encode_blob data_bytes = wire_format (length data_bytes) (
      if ltb max_blob_preview_size (length data_bytes)
      then take max_blob_preview_size data_bytes
      else data_bytes)

  unfoldable pub encode_blob_full : List ℕ → Text
  unfolding wire_format
  encode_blob_full data_bytes = wire_format (length data_bytes) data_bytes

abbrev pub IsNotColon : ℕ → Type 0
IsNotColon c = c ≢ b':'

behind-append : (s t : Text) → All IsNotColon s → behind b':' (s ++ (b':' ∷ t)) ≡ some t
unfolding behind
behind-append [] t h = refl
behind-append (c ∷ s) t h = rw (behind-append s t (h.1)) (ground arith)

to_decimal-IsNotColon : (n : ℕ) → All IsNotColon (to_decimal n)
to_decimal-IsNotColon n =
    All-mono IsDigit IsNotColon (λ c h. ground arith) (to_decimal n) (to_decimal-IsDigit n)

mime_or_default-IsNotColon :
    (o : Option Text)
    → ((mime : Text) → o ≡ some mime → All IsNotColon mime)
    → All IsNotColon (mime_or_default o)
unfolding mime_or_default
mime_or_default-IsNotColon (some mime) h = h mime refl
mime_or_default-IsNotColon none h = ground arith

take_all : (n : ℕ) (d : List ℕ) → length d ≤ n → take n d ≡ d
take_all zero [] h = refl
take_all (suc n) [] h = refl
take_all zero (b ∷ d) h = absurd (omega arith)
take_all (suc n) (b ∷ d) h = ap (◌∷◌ b) (take_all n d (omega arith))

preview_is_take :
    (d : List ℕ)
    → (if ltb max_blob_preview_size (length d) then take max_blob_preview_size d else d)
      ≡ take max_blob_preview_size d
preview_is_take d = elim (Bool-cases (ltb max_blob_preview_size (length d))) [
  | inl e ↦ rw e refl
  | inr e ↦ rw e (sym (take_all max_blob_preview_size d (ground arith)))
]

module _ (infer_mime : List ℕ → Option Text) (base64_encode : List ℕ → Text)
    (base64_decode : Text → Option (List ℕ)) where
  -- What the crates document: a MIME type has no colon, and base64 decodes what it encoded.
  pub record IsCodec : Type 0 where
    pub mime_has_no_colon :
        (d : List ℕ) (mime : Text) → infer_mime d ≡ some mime → All IsNotColon mime
    pub decode-encode : (d : List ℕ) → base64_decode (base64_encode d) ≡ some d

  mime_type-IsNotColon :
      IsCodec → (d : List ℕ) → All IsNotColon (mime_type infer_mime base64_encode d)
  unfolding mime_type
  mime_type-IsNotColon h d = mime_or_default-IsNotColon (infer_mime d) (h.mime_has_no_colon d)

  decode-wire_format :
      IsCodec
      → (n : ℕ) (d : List ℕ)
      → decode_blob_wire_format base64_decode (wire_format infer_mime base64_encode n d) ≡ some d
  unfolding decode_blob_wire_format wire_format strip_prefix
  decode-wire_format h n d =
      rw
        (behind-append (to_decimal n)
          (mime_type infer_mime base64_encode d ++ (b':' ∷ base64_encode d))
          (to_decimal-IsNotColon n))
        (rw
          (behind-append (mime_type infer_mime base64_encode d) (base64_encode d)
            (mime_type-IsNotColon h d))
          (h.decode-encode d))

  -- Bytes written in full come back whole, and a preview gives the first 10,240 of them at most, if a
  -- MIME type has no colon and base64 decodes what it encoded.
  pub decode-encode_blob :
      IsCodec
      → (d : List ℕ)
      → (decode_blob_wire_format base64_decode (encode_blob_full infer_mime base64_encode d)
          ≡ some d)
        × (decode_blob_wire_format base64_decode (encode_blob infer_mime base64_encode d)
            ≡ some (take max_blob_preview_size d))
  unfolding encode_blob_full encode_blob
  decode-encode_blob h d = (
    decode-wire_format h (length d) d,
    decode-wire_format h (length d)
          (if ltb max_blob_preview_size (length d) then take max_blob_preview_size d else d)
        ∙ ap some (preview_is_take d),
  )
