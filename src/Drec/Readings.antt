-- ===== src/Drec/Readings.antt =====
-- What the reading of one value shows of the bytes.
use openqbw.Base.{
  map_err-eq-ok, ℕ, suc, ◌+◌, ◌≡◌, refl, sym, ap, ◌∙◌, List, ◌++◌, Option, ok, ◌>>=◌, >>=-eq-ok,
  map_err, arith, All, length, true, ltb, inl, inr, Bool-cases, Option-cases,
}
use openqbw.Base.Bytes.{IsByte}
use openqbw.Balance.{BalanceBytes, balance_from_disk_bytes}
use openqbw.Balance.RoundTrip.{IsBalance-to_disk-from_disk}
use openqbw.Drec.{
  DrecByteOrder, DrecClass, DrecValue, DrecDescriptor, read_u16, read_u32, value_matches,
  invalid_legacy_balance,
}
use openqbw.Drec.Parse.{
  Input, fits_usize, take_slice, take_2, take_4, take_6, split_nul, parse_string, parse_value,
}
use openqbw.Drec.Encode.{value_encoded_len, balance_list, value_bytes}
use openqbw.Drec.Words.{input_at, take_2_inv, take_4_inv, take_6_inv}
use openqbw.Drec.Values.{IsValue, descriptor, take_slice_inv, split_nul_inv}

-- A value read at `c`: it matches its descriptor, and the bytes are its own and those left.
pub record IsRead (kind : DrecClass) (len : ℕ) (order : DrecByteOrder) (c : ℕ) (bytes : List ℕ)
    (r : DrecValue × Input) : Type 0 where
  pub matching : value_matches kind len r.0 ≡ true
  pub value : IsValue r.0
  pub written : bytes ≡ value_bytes order r.0 ++ r.1.rest
  pub moved : r.1.cursor ≡ c + value_encoded_len r.0
  pub left : All IsByte r.1.rest

module _ (order : DrecByteOrder) (c : ℕ) (bytes : List ℕ) (h : All IsByte bytes) where
  string-IsRead :
      (len : ℕ) (r : DrecValue × Input)
      → parse_string (input_at c bytes) len ≡ ok r
      → IsRead DrecClass.string len order c bytes r
  unfolding parse_string value_matches value_bytes value_encoded_len
  string-IsRead len r e = elim (Bool-cases (fits_usize (c + len))) [
    | inr huge ↦ cc (rw huge at e)
    | inl fits ↦ elim (Option-cases (split_nul len bytes)) [
      | inl missing ↦ elim (Bool-cases (ltb (length bytes) len)) [
        | inl short ↦ cc (rw short at (rw missing at (rw fits at e)))
        | inr open_end ↦ cc (rw open_end at (rw missing at (rw fits at e)))
      ]
      | inr (found, split) ↦
          let (clean, short, same, left) = split_nul_inv len bytes found h split in
          let built : r ≡ (DrecValue.string found.0, input_at (c + suc (length found.0)) found.1) =
            cc (rw split at (rw fits at e)) in
          rw built (record {
            matching = ground arith;
            value = tt;
            written = same;
            moved = omega arith;
            left = left;
          })
    ]
  ]

  u32-IsRead :
      (kind : DrecClass) (len : ℕ) (r : DrecValue × Input)
      → ((v : ℕ) → value_matches kind len (DrecValue.u32 v) ≡ true)
      → (take_4 (read_u32 order) (input_at c bytes) >>= λ x. ok (DrecValue.u32 x.0, x.1)) ≡ ok r
      → IsRead kind len order c bytes r
  unfolding value_bytes value_encoded_len
  u32-IsRead kind len r m e =
      let (x, read, e1) = >>=-eq-ok (take_4 (read_u32 order) (input_at c bytes)) _ e in
      let (w, same, moved, left) = take_4_inv order c bytes x h read in
      let built : r ≡ (DrecValue.u32 x.0, x.1) = cc e1 in
      rw built (record { matching = m x.0; value = w; written = same; moved = moved; left = left })

  u16-IsRead :
      (kind : DrecClass) (len : ℕ) (r : DrecValue × Input)
      → ((v : ℕ) → value_matches kind len (DrecValue.u16 v) ≡ true)
      → (take_2 (read_u16 order) (input_at c bytes) >>= λ x. ok (DrecValue.u16 x.0, x.1)) ≡ ok r
      → IsRead kind len order c bytes r
  unfolding value_bytes value_encoded_len
  u16-IsRead kind len r m e =
      let (x, read, e1) = >>=-eq-ok (take_2 (read_u16 order) (input_at c bytes)) _ e in
      let (w, same, moved, left) = take_2_inv order c bytes x h read in
      let built : r ≡ (DrecValue.u16 x.0, x.1) = cc e1 in
      rw built (record { matching = m x.0; value = w; written = same; moved = moved; left = left })

  value-IsRead :
      (default : Option DrecValue) (kind : DrecClass) (len : ℕ) (r : DrecValue × Input)
      → parse_value (input_at c bytes) (descriptor kind len default) order ≡ ok r
      → IsRead kind len order c bytes r
  unfolding parse_value value_matches value_bytes value_encoded_len
  value-IsRead default DrecClass.string len r e = string-IsRead len r e
  value-IsRead default DrecClass.bytes len r e =
      let (x, read, e1) = >>=-eq-ok (take_slice (input_at c bytes) len) _ e in
      let (exact, same, moved, left) = take_slice_inv c len bytes x h read in
      let built : r ≡ (DrecValue.bytes x.0, x.1) = cc e1 in
      rw built (record {
        matching = ground arith;
        value = tt;
        written = same;
        moved = omega (arith, moved, exact);
        left = left;
      })
  value-IsRead default DrecClass.f len r e = u32-IsRead DrecClass.f len r (λ v. refl) e
  value-IsRead default DrecClass.i len r e = u32-IsRead DrecClass.i len r (λ v. refl) e
  value-IsRead default DrecClass.l len r e = u32-IsRead DrecClass.l len r (λ v. refl) e
  value-IsRead default DrecClass.h len r e = u16-IsRead DrecClass.h len r (λ v. refl) e
  value-IsRead default DrecClass.u len r e = u16-IsRead DrecClass.u len r (λ v. refl) e
  value-IsRead default DrecClass.legacy_balance len r e =
      let (six, read, e1) = >>=-eq-ok (take_6 (input_at c bytes)) _ e in
      let (w, same, moved, left) = take_6_inv c bytes six h read in
      let (b, decoded, e2) =
        >>=-eq-ok (map_err invalid_legacy_balance (balance_from_disk_bytes six.0)) _ e1 in
      let (valid, back) =
        IsBalance-to_disk-from_disk six.0 b w.b2 w.b3 w.b4 w.b5 (map_err-eq-ok _ _ decoded) in
      let built : r ≡ (DrecValue.legacy_balance b, six.1) = cc e2 in
      rw built (record {
        matching = refl;
        value = valid;
        written = same ∙ ap (λ (s : BalanceBytes). balance_list s ++ six.1.rest) (sym back);
        moved = moved;
        left = left;
      })
  value-IsRead default DrecClass.z len r e =
      let (x, read, e1) = >>=-eq-ok (take_slice (input_at c bytes) 9) _ e in
      let (exact, same, moved, left) = take_slice_inv c 9 bytes x h read in
      let built : r ≡ (DrecValue.z x.0, x.1) = cc e1 in
      rw built
        (record { matching = refl; value = exact; written = same; moved = moved; left = left })
  value-IsRead default DrecClass.end len r e = cc
  value-IsRead default DrecClass.pointer_sized_d len r e = cc

  pub parse_value-IsRead :
      (d : DrecDescriptor) (r : DrecValue × Input)
      → parse_value (input_at c bytes) d order ≡ ok r
      → IsRead d.kind d.length order c bytes r
  parse_value-IsRead d r e = value-IsRead d.default d.kind d.length r e
