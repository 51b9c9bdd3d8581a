-- ===== src/Rows/LongValue.antt =====
-- crates/openqbw/src/long_value_ref.rs: the 14-byte long-value locators.
use openqbw.Base.{
  ℕ, ◌≡◌, ◌≢◌, ◌↔◌, ◌<◌, not, ◌||◌, List, [], ◌∷◌, ◌++◌, Outcome, ok, err, ◌>>=◌, length, leb, ◌==◌,
  if◌then◌else◌, arith, All,
}
use openqbw.Base.Bytes.{IsByte, IsU16, IsU32}
use openqbw.Rows.{le16, le32, guard-eq-ok, u16_at, u32_at}

abbrev pub long_value_ref_len : ℕ
long_value_ref_len = 14

abbrev pub long_value_ref_marker : ℕ
long_value_ref_marker = 0x0080

pub record LongValueRef : Type 0 where
  pub marker : ℕ
  pub payload_len : ℕ
  pub target_page : ℕ
  pub reserved : ℕ
  pub selector : ℕ

pub data LongValueRefError : Type 0 where
  wrong_length : ℕ → ℕ → LongValueRefError
  unsupported_marker : ℕ → LongValueRefError
  zero_payload_length : LongValueRefError
  target_page_out_of_range : ℕ → ℕ → LongValueRefError

unfoldable pub parse_long_value_ref : List ℕ → ℕ → Outcome LongValueRefError LongValueRef
unfolding u16_at u32_at
parse_long_value_ref bytes page_count =
    if not (length bytes == long_value_ref_len)
    then err (wrong_length long_value_ref_len (length bytes))
    else do
      marker ← u16_at bytes 0
      if not (marker == long_value_ref_marker) then err (unsupported_marker marker) else do
        payload_len ← u32_at bytes 2
        if payload_len == 0 then err zero_payload_length else do
          target_page ← u32_at bytes 6
          if (target_page == 0) || leb page_count target_page
              then err (target_page_out_of_range target_page page_count)
              else do
                reserved ← u16_at bytes 10
                selector ← u16_at bytes 12
                ok (record {
                  marker = marker;
                  payload_len = payload_len;
                  target_page = target_page;
                  reserved = reserved;
                  selector = selector;
                })

-- A locator written out, each field with its least significant byte first.
abbrev locator_bytes : LongValueRef → List ℕ
locator_bytes r =
    le16 r.marker ++ le32 r.payload_len ++ le32 r.target_page ++ le16 r.reserved ++ le16 r.selector

-- The locators that the parser promises.
record IsLocator (page_count : ℕ) (r : LongValueRef) : Type 0 where
  pub marked : r.marker ≡ long_value_ref_marker
  pub payload : IsU32 r.payload_len
  pub some_payload : r.payload_len ≢ 0
  pub page : IsU32 r.target_page
  pub page_one : r.target_page ≢ 0
  pub in_store : r.target_page < page_count
  pub reserved : IsU16 r.reserved
  pub selector : IsU16 r.selector

length_of_parsed :
    (bytes : List ℕ) (page_count : ℕ) (r : LongValueRef)
    → parse_long_value_ref bytes page_count ≡ ok r
    → length bytes ≡ 14
unfolding parse_long_value_ref
length_of_parsed bytes page_count r e =
    let (exact, _) = guard-eq-ok (not (length bytes == long_value_ref_len)) _ _ e in ground arith

-- Bytes parse as a locator exactly when it is marked, has a payload and a page from 1 up to below the
-- page count, and the bytes are its fields in little-endian order.
parse_long_value_ref_iff :
    (bytes : List ℕ) (page_count : ℕ) (r : LongValueRef)
    → All IsByte bytes
    → (parse_long_value_ref bytes page_count ≡ ok r)
      ↔ (IsLocator page_count r × (bytes ≡ locator_bytes r))
unfolding parse_long_value_ref
parse_long_value_ref_iff
      (b0 ∷ b1 ∷ b2 ∷ b3 ∷ b4 ∷ b5 ∷ b6 ∷ b7 ∷ b8 ∷ b9 ∷ b10 ∷ b11 ∷ b12 ∷ b13 ∷ []) page_count r
      h =
    (λ e. ground arith, λ e. ground arith)
parse_long_value_ref_iff
      (b0 ∷ b1 ∷ b2 ∷ b3 ∷ b4 ∷ b5 ∷ b6 ∷ b7 ∷ b8 ∷ b9 ∷ b10 ∷ b11 ∷ b12 ∷ b13 ∷ b14 ∷ more)
      page_count r h =
    (
      λ e. absurd (
          omega (
            arith,
            length_of_parsed
                (b0 ∷ b1 ∷ b2 ∷ b3 ∷ b4 ∷ b5 ∷ b6 ∷ b7 ∷ b8 ∷ b9 ∷ b10 ∷ b11 ∷ b12 ∷ b13 ∷ b14
                  ∷ more)
                page_count r e,
          )),
      λ e. cc,
    )
parse_long_value_ref_iff bytes page_count r h = (λ e. cc, λ e. cc)
