-- ===== src/Bufio/Writer/Appends.antt =====
-- Every write appends the bytes of its value to what has been written.
use node_lightning.Common.{
  ℕ, zero, suc, ◌+◌, ◌%◌, ◌^◌, ◌<◌, ◌≤◌, ◌≡◌, inl, inr, refl, sym, ◌∙◌, ap, arith, Bool, true,
  false, ltb, leb, lt→ltb, le→ltb, ltb→lt, ltb→le, leb→le, leb→lt, Bool-cases, ne→==_false,
  if◌then◌else◌, Result, ok, err, ◌>>=◌, List, [], ◌∷◌, ◌++◌, length, take, replicate,
  length-append, length-replicate, append_assoc, append-nil, subst, ◌&&◌,
}
use native.Mathlib.Nat.{suc-add, zero-add}
use node_lightning.Common.Bytes.{ByteOrder}
use node_lightning.Bufio.Writer.{
  Writer, Write, ceil_log2, alloc_size, copy, grow, expand, put, write_standard, write_bytes,
  WriteError, out_of_range, node_range,
}

-- What has been written: the buffer up to the position.
abbrev pub written : Writer → List ℕ
written w = take w.position w.buffer

-- The position lies in the buffer, and `n` more bytes fit: into a fixed buffer as it is, and into one
-- that grows up to 2^30 bytes.
pub record HasRoom (n : ℕ) (w : Writer) : Type 0 where
  pub inside : w.position ≤ length w.buffer
  pub fixed_fits : w.fixed ≡ true → w.position + n ≤ length w.buffer
  pub growing_fits : w.fixed ≡ false → w.position + n ≤ 2 ^ 30

length-copy :
    (target : List ℕ) (start : ℕ) (source : List ℕ)
    → length (copy target start source) ≡ length target
unfolding copy
length-copy [] start source = refl
length-copy (x ∷ target) (suc start) source = ap suc (length-copy target start source)
length-copy (x ∷ target) zero [] = refl
length-copy (x ∷ target) zero (b ∷ source) = ap suc (length-copy target zero source)

take-copy :
    (target : List ℕ) (start : ℕ) (source : List ℕ)
    → start + length source ≤ length target
    → take (start + length source) (copy target start source) ≡ take start target ++ source
unfolding copy
take-copy [] zero [] h = refl
take-copy [] zero (b ∷ source) h = absurd (omega arith)
take-copy [] (suc start) source h = absurd (omega arith)
take-copy (x ∷ target) (suc start) source h =
    rw suc-add (ap (λ xs. x ∷ xs) (take-copy target start source (omega arith)))
take-copy (x ∷ target) zero [] h = refl
take-copy (x ∷ target) zero (b ∷ source) h =
    rw zero-add (ap (λ xs. b ∷ xs) (rw zero-add at (take-copy target zero source (omega arith))))

-- The copy into the front of a larger buffer keeps what was written.
take-copy_front :
    (n : ℕ) (target source : List ℕ)
    → n ≤ length source
    → length source ≤ length target
    → take n (copy target 0 source) ≡ take n source
unfolding copy
take-copy_front zero target source h k = refl
take-copy_front (suc n) target [] h k = absurd (omega arith)
take-copy_front (suc n) [] (b ∷ source) h k = absurd (omega arith)
take-copy_front (suc n) (x ∷ target) (b ∷ source) h k =
    ap (λ xs. b ∷ xs) (take-copy_front n target source (omega arith) (omega arith))

-- Up to 2^30 the power of two that is found is large enough, and 2^30 at most.
ceil_log2_fits :
    (left k required : ℕ)
    → left + k ≡ 53
    → k ≤ 30
    → required ≤ 2 ^ 30
    → (ceil_log2 left k required ≤ 30) × (required ≤ 2 ^ ceil_log2 left k required)
unfolding ceil_log2
ceil_log2_fits zero k required e h fits = absurd (omega arith)
ceil_log2_fits (suc left) k required e h fits = elim (Bool-cases (leb required (2 ^ k))) [
  | inl enough ↦ rw enough (h, leb→le required (2 ^ k) enough)
  | inr short ↦ rw short (ceil_log2_fits left (k + 1) required (omega arith) (below short) fits)
]
  where
    below : leb required (2 ^ k) ≡ false → k + 1 ≤ 30
    below short = ground (arith, leb→lt required (2 ^ k) short, last)
      where
        last : k ≡ 30 → 2 ^ k ≡ 2 ^ 30
        last e = ap (λ (n : ℕ). 2 ^ n) e

-- A writer after a call: it has room at its position for `n` bytes, and nothing written has changed.
pub record Expanded (n : ℕ) (w w' : Writer) : Type 0 where
  pub same_position : w'.position ≡ w.position
  pub same_fixed : w'.fixed ≡ w.fixed
  pub enough : w.position + n ≤ length w'.buffer
  pub same_written : written w' ≡ written w
  pub same_length : w.fixed ≡ true → length w'.buffer ≡ length w.buffer

grow-Expanded :
    (n : ℕ) (w : Writer)
    → HasRoom n w
    → w.fixed ≡ false
    → length w.buffer < w.position + n
    → (w' : Writer) × (grow (w.position + n) w ≡ ok w') × Expanded n w w'
unfolding grow alloc_size
grow-Expanded n w room growing small =
    let bits : ℕ = ceil_log2 53 0 (w.position + n) in
    let (few, large) =
      ceil_log2_fits 53 0 (w.position + n) refl (omega arith) (room.growing_fits growing) in
    let kept : bits % 32 ≡ bits = omega (arith, few) in
    let not_31 = ne→==_false bits 31 (λ e. omega (arith, few, e)) in
    let allocated : List ℕ = replicate (2 ^ bits) 0 in
    let size : length allocated ≡ 2 ^ bits = length-replicate (2 ^ bits) 0 in
    (
      record w { buffer = copy allocated 0 w.buffer },
      rw (kept, not_31) refl,
      record {
        same_position = refl;
        same_fixed = refl;
        enough = omega (arith, size, length-copy allocated 0 w.buffer, large);
        same_written =
            take-copy_front w.position allocated w.buffer room.inside (omega (arith, size, large));
        same_length = λ e. cc;
      },
    )

pub expand-Expanded :
    (n : ℕ) (w : Writer) → HasRoom n w → (w' : Writer) × (expand n w ≡ ok w') × Expanded n w w'
unfolding expand
expand-Expanded n w room = elim (Bool-cases (ltb (length w.buffer) (w.position + n))) [
  | inl small ↦
      let growing : w.fixed ≡ false = ground (arith, room.fixed_fits, ltb→lt _ _ small) in
      let (w', grown, after) = grow-Expanded n w room growing (ltb→lt _ _ small) in
      (w', if_small w.fixed growing small ∙ grown, after)
  | inr enough ↦ (
    w,
    rw enough (if_fixed w.fixed),
    record {
      same_position = refl;
      same_fixed = refl;
      enough = ltb→le _ _ enough;
      same_written = refl;
      same_length = λ e. refl;
    },
  )
]
  where
    if_fixed :
        (fixed : Bool)
        → (if fixed && false
            then err out_of_range
            else (if false then grow (w.position + n) w else ok w))
          ≡ ok w
    if_fixed true = refl
    if_fixed false = refl

    if_small :
        (fixed : Bool)
        → fixed ≡ false
        → ltb (length w.buffer) (w.position + n) ≡ true
        → (if fixed && ltb (length w.buffer) (w.position + n)
            then err out_of_range
            else (if ltb (length w.buffer) (w.position + n) then grow (w.position + n) w else ok w))
          ≡ grow (w.position + n) w
    if_small fixed growing small = rw (growing, small) refl

-- After the call `bytes` have been appended: to what was written, and to nothing else; a fixed buffer
-- keeps its length.
pub record Appended (bytes : List ℕ) (w w' : Writer) : Type 0 where
  pub content : written w' ≡ written w ++ bytes
  pub moved : w'.position ≡ w.position + length bytes
  pub still_fixed : w'.fixed ≡ w.fixed
  pub inside : w'.position ≤ length w'.buffer
  pub same_length : w.fixed ≡ true → length w'.buffer ≡ length w.buffer

abbrev pub Appends : Result WriteError Writer → List ℕ → Writer → Type 0
Appends call bytes w = (w' : Writer) × (call ≡ ok w') × Appended bytes w w'

put-Appended :
    (bytes : List ℕ) (w w' : Writer)
    → Expanded (length bytes) w w'
    → Appended bytes w (put bytes w')
unfolding put
put-Appended bytes w w' e = record {
  content =
      take-copy w'.buffer w'.position bytes (omega (arith, e.enough, e.same_position))
      ∙ ap (λ xs. xs ++ bytes) e.same_written;
  moved = omega (arith, e.same_position);
  still_fixed = e.same_fixed;
  inside = omega (arith, e.enough, e.same_position, length-copy w'.buffer w'.position bytes);
  same_length = λ fixed. length-copy w'.buffer w'.position bytes ∙ e.same_length fixed;
}

-- A writer with room for two runs of bytes has room for the second one behind the first.
pub HasRoom-after :
    (bytes : List ℕ) (m : ℕ) (w w' : Writer)
    → HasRoom (length bytes + m) w
    → Appended bytes w w'
    → HasRoom m w'
HasRoom-after bytes m w w' room a = record {
  inside = a.inside;
  fixed_fits = λ fixed. omega (
    arith,
    a.moved,
    a.same_length (sym a.still_fixed ∙ fixed),
    room.fixed_fits (sym a.still_fixed ∙ fixed),
  );
  growing_fits = λ growing. omega (arith, a.moved, room.growing_fits (sym a.still_fixed ∙ growing));
}

pub Appended-trans :
    (xs ys : List ℕ) (w w' w'' : Writer)
    → Appended xs w w'
    → Appended ys w' w''
    → Appended (xs ++ ys) w w''
Appended-trans xs ys w w' w'' a b = record {
  content = b.content ∙ ap (λ zs. zs ++ ys) a.content ∙ append_assoc (written w) xs ys;
  moved = omega (arith, a.moved, b.moved, length-append xs ys);
  still_fixed = b.still_fixed ∙ a.still_fixed;
  inside = b.inside;
  same_length = λ fixed. b.same_length (a.still_fixed ∙ fixed) ∙ a.same_length fixed;
}

-- Where there is room, a number that fits `len` bytes is appended in `len` bytes of the byte order; one
-- that does not fit throws.
pub write_standard-Appends :
    (order : ByteOrder) (len val : ℕ) (w : Writer)
    → HasRoom len w
    → (val < 256 ^ len → Appends (write_standard order len val w) (order.bytes len val) w)
      × (256 ^ len ≤ val → write_standard order len val w ≡ err node_range)
unfolding write_standard
write_standard-Appends order len val w room =
    let (w', expanded, after) = expand-Expanded len w room in
    let after' = subst (λ n. Expanded n w w') (sym (order.length-bytes len val)) after in
    (
      λ fits. (
        put (order.bytes len val) w',
        rw (expanded, lt→ltb val (256 ^ len) fits) refl,
        put-Appended (order.bytes len val) w w' after',
      ),
      λ large. rw (expanded, le→ltb val (256 ^ len) large) refl,
    )

-- Where there is room, bytes are appended as they are.
pub write_bytes-Appends :
    (bytes : List ℕ) (w : Writer) → HasRoom (length bytes) w → Appends (write_bytes bytes w) bytes w
unfolding write_bytes
write_bytes-Appends [] w room = (
  w,
  refl,
  record {
    content = sym (append-nil _);
    moved = omega arith;
    still_fixed = refl;
    inside = room.inside;
    same_length = λ e. refl;
  },
)
write_bytes-Appends (b ∷ bytes) w room =
    let (w', expanded, after) = expand-Expanded (length (b ∷ bytes)) w room in
    (
      put (b ∷ bytes) w',
      rw (ne→==_false (length (b ∷ bytes)) 0 (λ e. omega (arith, e)), expanded) refl,
      put-Appended (b ∷ bytes) w w' after,
    )

-- A call that goes on with another one appends the bytes of both.
pub Appends_then :
    (xs ys : List ℕ) (w : Writer) (first : Write) (next : Writer → Write)
    → Appends first xs w
    → ((w' : Writer) → Appended xs w w' → Appends (next w') ys w')
    → Appends (first >>= next) (xs ++ ys) w
Appends_then xs ys w first next (w', e, a) continue =
    let (w'', e', a') = continue w' a in (w'', rw e e', Appended-trans xs ys w w' w'' a a')
