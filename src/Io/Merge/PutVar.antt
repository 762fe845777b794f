-- ===== src/Io/Merge/PutVar.antt =====
-- server/io.c: `_put_var` puts each element of a block in its place, and changes nothing else.
use native.Mathlib.Nat.{mod-eq_of_lt}
use cfio.Prelude.{
  ℕ, ◌+◌, ◌-◌, ◌*◌, ◌%◌, ◌^◌, ◌<◌, ◌≤◌, ◌≡◌, refl, sym, ◌∙◌, ap, ◌⊎◌, inl, inr, false, some, List,
  ◌==◌, arith,
}
use cfio.Memory.{Memory, load}
use cfio.Buffer.{size_t_mod}
use cfio.Io.Merge.{Axis, copy_loop, rounds, src_len, dst_offset, put_var}
use cfio.Io.Merge.Digits.{digits, offset, elements, room, elements_pos, room_mono, mul_le}
use cfio.Io.Merge.Copy.{Copies, copy_loop-Copies}
use cfio.Io.Merge.Place.{
  Covers, InBlock, src_position, dst_position, Covers-Inside, shift, offset_place, digits-InBlock,
  digits-src_position, src_position-lt, src_len-elements, dst_offset-shift, shift-room,
  zeros-digits, offset_zero, rounds_lem, place-Apart,
}

module _ (ele : ℕ) (dims : List Axis) (m : Memory) (dst src : ℕ) (c : Covers dims) (pos : 0 < ele)
    (fits : room ele dims < 2 ^ 64) (few : elements dims < 2 ^ 31)
    (apart : (src + ele * elements dims ≤ dst) ⊎ (dst + room ele dims ≤ src)) where
  one_room : room 1 dims ≤ room ele dims
  one_room = room_mono 1 ele dims pos

  put_var_lem :
      put_var ele dims m dst src
      ≡ copy_loop
          (elements dims - 1)
          ele
          dims
          m
          (dst + ele * shift dims + offset ele dims 0)
          src
          (digits dims 0)
  unfolding put_var
  put_var_lem =
      let i = Covers-Inside dims c in
      let b = dst + ele * shift dims in
      let some_element = elements_pos dims i in
      let len : src_len 1 dims ≡ elements dims =
        src_len-elements 1 dims i (omega arith) ∙ omega arith in
      let high = shift-room ele dims c in
      let low : 1 * shift dims ≤ ele * shift dims = mul_le 1 ele (shift dims) pos in
      let start : dst_offset 1 0 dims ≡ shift dims =
        dst_offset-shift 1 0 dims c (omega arith) (omega (arith, one_room)) (omega arith)
        ∙ omega arith in
      let w : (ele * shift dims) % size_t_mod ≡ ele * shift dims = mod-eq_of_lt (omega arith) in
      let n0 : elements dims == 0 ≡ false = ground arith in
      let n1 : rounds (elements dims) ≡ elements dims - 1 = rounds_lem (elements dims) few in
      let at : b + offset ele dims 0 ≡ b = omega (arith, offset_zero ele dims) in
      rw (len, start, w, n0, n1, zeros-digits dims, at) refl

  pub put_var-Copies :
      (m' : Memory) × (put_var ele dims m dst src ≡ some m')
      × Copies ele dims (dst + ele * shift dims) src 0 m m'
  put_var-Copies =
      let i = Covers-Inside dims c in
      let some_element = elements_pos dims i in
      let (m', run, copies) =
        copy_loop-Copies ele dims (dst + ele * shift dims) src i fits
          (place-Apart ele dims dst src c apart) (elements dims - 1) 0 m src (omega arith)
          (omega arith) in
      (m', put_var_lem ∙ run, copies)

  pub put_var-places :
      (m' : Memory) × (put_var ele dims m dst src ≡ some m')
      × ((index : List ℕ)
          → InBlock dims index
          → load m' (dst + ele * dst_position dims index) ele
            ≡ load m (src + ele * src_position dims index) ele)
      × ((q : ℕ)
          → ((index : List ℕ)
              → InBlock dims index
              → (q < dst + ele * dst_position dims index)
                ⊎ (dst + ele * dst_position dims index + ele ≤ q))
          → m' q ≡ m q)
  put_var-places =
      let (m', run, copies) = put_var-Copies in
      let i = Covers-Inside dims c in
      (
        m',
        run,
        λ index inside.
            let n = src_position dims index in
            let below = src_position-lt dims index inside in
            let d = digits-src_position dims index inside in
            let place = offset_place ele dims n c in
            let to : dst + ele * shift dims + offset ele dims n
                ≡ dst + ele * dst_position dims index =
              omega (arith, place, ap (λ r. ele * dst_position dims r) d) in
            let from : src + n * ele ≡ src + ele * n = grind arith in
            rw (sym to, sym from) (copies.elems n (omega arith) below),
        λ q out. copies.rest q (λ j lo hi.
            let place = offset_place ele dims j c in
            elim (out (digits dims j) (digits-InBlock dims j i)) [
              | inl before ↦ inl (omega (arith, place, before))
              | inr behind ↦ inr (omega (arith, place, behind))
            ]),
      )

  -- When the merged array covers a block that is not empty and has less than 2 ^ 31 elements, the
  -- merged array is smaller than 2 ^ 64 bytes, and the two do not overlap, _put_var succeeds, and
  -- the bytes of the element with a given index in the block are then at the place of that element
  -- in the merged array.
  pub put_var-place :
      (index : List ℕ)
      → InBlock dims index
      → (m' : Memory) × (put_var ele dims m dst src ≡ some m')
        × (load m' (dst + ele * dst_position dims index) ele
            ≡ load m (src + ele * src_position dims index) ele)
  put_var-place index inside =
      let (m', run, elems, rest) = put_var-places in (m', run, elems index inside)

  -- When the merged array covers a block that is not empty and has less than 2 ^ 31 elements, the
  -- merged array is smaller than 2 ^ 64 bytes, and the two do not overlap, _put_var changes no
  -- byte outside the places of the block's elements.
  pub put_var-elsewhere :
      (q : ℕ)
      → ((index : List ℕ)
          → InBlock dims index
          → (q < dst + ele * dst_position dims index)
            ⊎ (dst + ele * dst_position dims index + ele ≤ q))
      → (m' : Memory) × (put_var ele dims m dst src ≡ some m') × (m' q ≡ m q)
  put_var-elsewhere q out = let (m', run, elems, rest) = put_var-places in (m', run, rest q out)
