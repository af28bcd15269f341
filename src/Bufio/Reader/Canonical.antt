-- ===== src/Bufio/Reader/Canonical.antt =====
-- A BigSize that is accepted was encoded in as few bytes as its size allows.
use node_lightning.Common.{
  ℕ, ◌+◌, ◌^◌, ◌<◌, ◌≤◌, ◌≡◌, refl, sym, ◌∙◌, ap, ap₂, subst, arith, ltb, Bool-cases, ltb→lt,
  ltb→le, ◌==◌, ==_iff, inl, inr, if◌then◌else◌, ok, ◌>>=◌, subst₂, >>=-eq-ok, List, [], ◌∷◌, ◌++◌,
  length, take, drop, All, length-drop, length-take, take-append-drop, drop-add,
}
use node_lightning.Common.Bytes.{
  IsByte, big_endian, le_value, le_value-lt, be_value, be_value-lt, be_bytes-be_value, All-take,
  All-drop,
}
use node_lightning.Bufio.Reader.{
  Reader, Read, advance, slice, read_standard, read_uint8, read_uint16_be, read_uint32_be,
  read_uint64_be, set_last, canonical, read_big_size,
}
use node_lightning.Bufio.Reader.Varint.{
  varint_code, varint_code_1, varint_code_3, varint_code_5, varint_code_9,
}

-- What a read of `n` bytes that returned has found: `n` bytes ahead, which it decoded, and the cursor
-- behind them.
pub record Found (decode : List ℕ → ℕ) (n : ℕ) (r : Reader) (v : ℕ) (r' : Reader) : Type 0 where
  pub front : List ℕ
  pub size : length front ≡ n
  pub value : v ≡ decode front
  pub buffer : r'.buffer ≡ r.buffer
  pub position : r'.position ≡ r.position + n
  pub ahead : drop r.position r.buffer ≡ front ++ drop (r.position + n) r.buffer
  pub front_bytes : All IsByte r.buffer → All IsByte front
  pub inside : r.position + n ≤ length r.buffer

slice-Found :
    (decode : List ℕ → ℕ) (n : ℕ) (r : Reader)
    → r.position + n ≤ length r.buffer
    → Found decode n r (decode (slice r.buffer r.position n)) (advance n r)
unfolding slice advance
slice-Found decode n r h = record {
  front = take n (drop r.position r.buffer);
  size = omega (arith, length-take n (drop r.position r.buffer), length-drop r.position r.buffer);
  value = refl;
  buffer = refl;
  position = refl;
  ahead = sym (
      ap (λ t. take n (drop r.position r.buffer) ++ t) (drop-add r.position n r.buffer)
      ∙ take-append-drop n (drop r.position r.buffer));
  front_bytes = λ k. All-take n (drop r.position r.buffer) (All-drop r.position r.buffer k);
  inside = h;
}

returned : ℕ × Reader → Read ℕ
returned p = ok p

pair_of_ok : {a c : ℕ} {b d : Reader} → returned (a, b) ≡ returned (c, d) → (a ≡ c) × (b ≡ d)
unfolding returned
pair_of_ok e = (cc, cc)

read_standard-Found :
    (decode : List ℕ → ℕ) (n : ℕ) (r : Reader) (v : ℕ) (r' : Reader)
    → read_standard decode n r ≡ ok (v, r')
    → Found decode n r v r'
unfolding read_standard returned
read_standard-Found decode n r v r' e = elim (Bool-cases (ltb (length r.buffer) (r.position + n))) [
  | inl out ↦ cc (rw out at e)
  | inr fits ↦
      let same = pair_of_ok (rw fits at e) in
      subst₂ (Found decode n r) same.0 same.1 (slice-Found decode n r (ltb→le _ _ fits))
]

read_uint64_standard : (r : Reader) → read_uint64_be r ≡ read_standard be_value 8 r
unfolding read_uint64_be read_standard
read_uint64_standard r = elim (Bool-cases (ltb (length r.buffer) (r.position + 8))) [
  | inl out ↦ rw out refl
  | inr fits ↦ rw fits refl
]

-- The bytes found are those of the value, in big-endian order.
Found-code :
    (n : ℕ) (r : Reader) (v : ℕ) (r' : Reader)
    → All IsByte r.buffer
    → Found be_value n r v r'
    → (drop r.position r.buffer ≡ big_endian.bytes n v ++ drop r'.position r'.buffer)
      × (v < 256 ^ n)
Found-code n r v r' h f = (
  f.ahead ∙ ap₂ (λ xs ys. xs ++ ys) front_code rest_code,
  rw (f.value, ← f.size) (be_value-lt f.front (f.front_bytes h)),
)
  where
    front_code : f.front ≡ big_endian.bytes n v
    front_code = rw (f.value, ← f.size) (sym (be_bytes-be_value f.front (f.front_bytes h)))

    rest_code : drop (r.position + n) r.buffer ≡ drop r'.position r'.buffer
    rest_code = ap₂ drop (sym f.position) (sym f.buffer)

first_code :
    (r : Reader) (b : ℕ) (r1 : Reader)
    → All IsByte r.buffer
    → read_uint8 r ≡ ok (b, r1)
    → (drop r.position r.buffer ≡ b ∷ drop r1.position r1.buffer) × (b < 256) × All IsByte r1.buffer
unfolding read_uint8
first_code r b r1 h e =
    let f = read_standard-Found le_value 1 r b r1 e in
    (
      f.ahead
          ∙ ap₂ (λ xs ys. xs ++ ys) (single f.front f.size ∙ ap (λ (x : ℕ). x ∷ []) (sym f.value))
              (ap₂ drop (sym f.position) (sym f.buffer)),
      rw f.value
          (subst (λ n. le_value f.front < 256 ^ n) f.size (le_value-lt f.front (f.front_bytes h))),
      subst (All IsByte) (sym f.buffer) h,
    )
  where
    single : (front : List ℕ) → length front ≡ 1 → front ≡ le_value front ∷ []
    single [] e = absurd (omega arith)
    single (x ∷ []) e = ap (λ (y : ℕ). y ∷ []) (unfold le_value in omega arith)
    single (x ∷ y ∷ ys) e = absurd (omega arith)

-- A longer form that was accepted: the bytes of the value, which is not below `least`.
long_code :
    (n least last : ℕ) (r1 : Reader) (v : ℕ) (r' : Reader)
    → All IsByte r1.buffer
    → (read_standard be_value n (set_last last r1) >>= canonical least) ≡ ok (v, r')
    → (least ≤ v)
      × (v < 256 ^ n)
      × (drop r1.position r1.buffer ≡ big_endian.bytes n v ++ drop r'.position r'.buffer)
unfolding canonical returned set_last
long_code n least last r1 v r' h e =
    let (p, read, check) = >>=-eq-ok (read_standard be_value n (set_last last r1)) _ e in
    accepted p.0 p.1 read check
  where
    accepted :
        (x : ℕ) (r2 : Reader)
        → read_standard be_value n (set_last last r1) ≡ ok (x, r2)
        → canonical least (x, r2) ≡ ok (v, r')
        → (least ≤ v)
          × (v < 256 ^ n)
          × (drop r1.position r1.buffer ≡ big_endian.bytes n v ++ drop r'.position r'.buffer)
    accepted x r2 read check = elim (Bool-cases (ltb x least)) [
      | inl short ↦ cc (rw short at check)
      | inr enough ↦
          let same = pair_of_ok (rw enough at check) in
          let read' =
            subst₂ (λ y s. read_standard be_value n (set_last last r1) ≡ ok (y, s)) same.0 same.1
              read in
          let found =
            Found-code n (set_last last r1) v r' h
              (read_standard-Found be_value n (set_last last r1) v r' read') in
          (omega (arith, ltb→le x least enough, same.0), found.1, found.0)
    ]

-- Of a buffer of bytes: a BigSize that is accepted is below 2^64, and what the cursor has passed is
-- the one encoding that `varint_code` gives its value. So no value is accepted in two forms.
pub read_big_size_canonical :
    (r : Reader) (v : ℕ) (r' : Reader)
    → All IsByte r.buffer
    → read_big_size r ≡ ok (v, r')
    → (v < 2 ^ 64)
      × (drop r.position r.buffer ≡ varint_code big_endian v ++ drop r'.position r'.buffer)
unfolding read_big_size returned read_uint16_be read_uint32_be
read_big_size_canonical r v r' h e =
    let (p, read, rest) = >>=-eq-ok (read_uint8 r) _ e in
    by_size p.0 p.1 (first_code r p.0 p.1 h read) rest
  where
    by_size :
        (size : ℕ) (r1 : Reader)
        → (drop r.position r.buffer ≡ size ∷ drop r1.position r1.buffer)
          × (size < 256)
          × All IsByte r1.buffer
        → (if ltb size 0xfd
            then ok (size, set_last 1 r1)
            else (if size == 0xfd
                then read_uint16_be (set_last 3 r1) >>= canonical 0xfd
                else (if size == 0xfe
                    then read_uint32_be (set_last 5 r1) >>= canonical 0x1_0000
                    else read_uint64_be (set_last 9 r1) >>= canonical 0x1_0000_0000)))
          ≡ returned (v, r')
        → (v < 2 ^ 64)
          × (drop r.position r.buffer ≡ varint_code big_endian v ++ drop r'.position r'.buffer)
    by_size size r1 (front, byte, bytes) rest = elim (Bool-cases (ltb size 0xfd)) [
      | inl small ↦
          let same = pair_of_ok (rw small at rest) in
          let below : v < 0xfd = omega (arith, same.0, ltb→lt size 0xfd small) in
          (
            omega arith,
            front
                ∙ ap₂ (λ (x : ℕ) (s : Reader). x ∷ drop s.position s.buffer) same.0 same.1
                ∙ ap (λ xs. xs ++ drop r'.position r'.buffer)
                    (sym (varint_code_1 big_endian v below)),
          )
      | inr large ↦ elim (Bool-cases (size == 0xfd)) [
        | inl fd ↦
            let (lo, hi, code) = long_code 2 0xfd 3 r1 v r' bytes (rw (large, fd) at rest) in
            (
              omega arith,
              front
                  ∙ ap₂ (λ (x : ℕ) xs. x ∷ xs) ((==_iff size 0xfd).0 fd) code
                  ∙ ap (λ xs. xs ++ drop r'.position r'.buffer)
                      (sym (varint_code_3 big_endian v lo hi)),
            )
        | inr not_fd ↦ elim (Bool-cases (size == 0xfe)) [
          | inl fe ↦
              let (lo, hi, code) =
                long_code 4 0x1_0000 5 r1 v r' bytes (rw (large, not_fd, fe) at rest) in
              (
                omega arith,
                front
                    ∙ ap₂ (λ (x : ℕ) xs. x ∷ xs) ((==_iff size 0xfe).0 fe) code
                    ∙ ap (λ xs. xs ++ drop r'.position r'.buffer)
                        (sym (varint_code_5 big_endian v lo hi)),
              )
          | inr not_fe ↦
              let last : size ≡ 0xff = ground arith in
              let (lo, hi, code) = long_code 8 0x1_0000_0000 9 r1 v r' bytes (
                rw (← read_uint64_standard (set_last 9 r1)) (rw (large, not_fd, not_fe) at rest)) in
              (
                omega arith,
                front
                    ∙ ap₂ (λ (x : ℕ) xs. x ∷ xs) last code
                    ∙ ap (λ xs. xs ++ drop r'.position r'.buffer)
                        (sym (varint_code_9 big_endian v lo)),
              )
        ]
      ]
    ]
