-- ===== src/Packet/Bytes.antt =====
-- How src/Packet.cc stores into a buffer and loads from one: `memcpy` through a pointer that moves
-- on. The memory from the pointer on is a list of bytes; `none` is an access past its end. Numbers
-- stand in memory in the order of a little-endian host.
use native.Mathlib.Nat.{pow-suc}
use mathlib.Core.List.{append_assoc}
use ign_transport_git.Base.{
  ℕ, zero, suc, ◌+◌, ◌-◌, ◌*◌, ◌/◌, ◌%◌, ◌^◌, ◌≤◌, ◌<◌, ◌≡◌, refl, ap, [], ◌∷◌, ◌++◌, Option, none,
  some, false, arith, length, drop, length-append, length-drop, drop-drop, drop-append, ltb,
  if◌then◌else◌, Text,
}

-- The bytes of a number in a field of `k` bytes.
unfoldable pub le : ℕ → ℕ → Text
le zero v = []
le (suc k) v = (v % 256) ∷ le k (v / 256)

unfoldable pub le_value : Text → ℕ
le_value [] = 0
le_value (b ∷ bs) = b + 256 * le_value bs

-- An `int` that was narrowed from a `size_t` and is widened to `size_t` again.
unfoldable pub through_int : ℕ → ℕ
through_int n = if ltb (n % 2 ^ 32) (2 ^ 31) then n % 2 ^ 32 else n % 2 ^ 32 + (2 ^ 64 - 2 ^ 32)

-- What was stored, and the memory behind it.
abbrev pub Writer : Type 0
Writer = Text → Option (Text × Text)

-- `memcpy(_buffer, bs); _buffer += size`.
unfoldable pub emit : Text → Writer
emit [] mem = some ([], mem)
emit (b ∷ bs) [] = none
emit (b ∷ bs) (m ∷ mem) = elim (emit bs mem) [
  | none ↦ none
  | some (stored, rest) ↦ some (b ∷ stored, rest)
]

abbrev then_store : Text → Option (Text × Text) → Option (Text × Text)
then_store stored none = none
then_store stored (some (more, rest)) = some (stored ++ more, rest)

infixr 5 ◌>>◌
unfoldable pub ◌>>◌ : Writer → Writer → Writer
◌>>◌ v w mem = elim (v mem) [ none ↦ none | some (stored, rest) ↦ then_store stored (w rest) ]

-- The length of a text as a `uint64_t`, then its bytes.
unfoldable pub emit_text : Text → Writer
unfolding emit ◌>>◌
emit_text s = do emit (le 8 (length s)); emit s

-- Run the stores at an offset; the result is the whole memory.
unfoldable pub store_at : ℕ → Writer → Text → Option Text
store_at zero w mem = elim (w mem) [ none ↦ none | some (stored, rest) ↦ some (stored ++ rest) ]
store_at (suc n) w [] = none
store_at (suc n) w (m ∷ mem) = elim (store_at n w mem) [ none ↦ none | some mem' ↦ some (m ∷ mem') ]

abbrev pub Reader {ℓ} : Type ℓ → Type ℓ
Reader A = Text → Option (A × Text)

infixl 5 ◌>>=◌
unfoldable pub ◌>>=◌ {ℓ κ} : {A : Type ℓ} {B : Type κ} → Reader A → (A → Reader B) → Reader B
◌>>=◌ r f mem = elim (r mem) [ none ↦ none | some (a, rest) ↦ f a rest ]

unfoldable pub return {ℓ} : {A : Type ℓ} → A → Reader A
return a mem = some (a, mem)

-- `std::string(_buffer, _buffer + n); _buffer += n`.
unfoldable pub take_bytes : ℕ → Reader Text
take_bytes zero mem = some ([], mem)
take_bytes (suc n) [] = none
take_bytes (suc n) (m ∷ mem) = elim (take_bytes n mem) [
  | none ↦ none
  | some (bs, rest) ↦ some (m ∷ bs, rest)
]

-- The layout of a text on the wire.
unfoldable pub encode_text : Text → Text
encode_text s = le 8 (length s) ++ s

-- A number of `k` bytes.
unfoldable pub load : ℕ → Reader ℕ
unfolding take_bytes le_value ◌>>=◌ return
load k = do bs ← take_bytes k; return (le_value bs)

unfoldable pub load_text : Reader Text
unfolding load take_bytes ◌>>=◌
load_text = do n ← load 8; take_bytes n

-- Load from the pointer moved on by `n`.
unfoldable pub load_at {ℓ} : {A : Type ℓ} → ℕ → Reader A → Text → Option A
load_at n r mem =
    if ltb (length mem) n
    then none
    else elim (r (drop n mem)) [ none ↦ none | some (a, rest) ↦ some a ]

pub through_int-lt : (n : ℕ) → through_int n < 2 ^ 64
unfolding through_int
through_int-lt n = ground arith

pub through_int_small : (n : ℕ) → n < 2 ^ 31 → through_int n ≡ n
unfolding through_int
through_int_small n h = ground arith

pub length-le : (k v : ℕ) → length (le k v) ≡ k
unfolding le
length-le zero v = refl
length-le (suc k) v = ap suc (length-le k (v / 256))

pub length-encode_text : (s : Text) → length (encode_text s) ≡ 8 + length s
unfolding encode_text
length-encode_text s = omega (arith, length-append (le 8 (length s)) s, length-le 8 (length s))

pub le_value-le : (k v : ℕ) → v < 256 ^ k → le_value (le k v) ≡ v
unfolding le_value le
le_value-le zero v h = omega arith
le_value-le (suc k) v h = omega (arith, le_value-le k (v / 256) (omega (arith, pow-suc 256 k)))

-- The writer stores exactly `bs` where there is room for it.
pub record Emits (w : Writer) (bs : Text) : Type 0 where
  pub stores : (mem : Text) → length bs ≤ length mem → w mem ≡ some (bs, drop (length bs) mem)

emit-lem : (bs mem : Text) → length bs ≤ length mem → emit bs mem ≡ some (bs, drop (length bs) mem)
unfolding emit
emit-lem [] mem h = refl
emit-lem (b ∷ bs) [] h = absurd (omega arith)
emit-lem (b ∷ bs) (m ∷ mem) h = rw (emit-lem bs mem (omega arith))

pub emit-Emits : (bs : Text) → Emits (emit bs) bs
emit-Emits bs = record { stores = emit-lem bs }

pub >>-Emits : {v w : Writer} {bs cs : Text} → Emits v bs → Emits w cs → Emits (v >> w) (bs ++ cs)
unfolding ◌>>◌
>>-Emits {v} {w} {bs} {cs} hv hw = record {
  stores = λ mem h.
      let e : length (bs ++ cs) ≡ length bs + length cs = length-append bs cs in
      let fits : length cs ≤ length (drop (length bs) mem) =
        omega (arith, length-drop (length bs) mem) in
      rw (hv.stores mem (omega arith), ◌>>◌)
        (rw (hw.stores (drop (length bs) mem) fits)
          (rw (drop-drop (length bs) (length cs) mem, e)));
}

pub emit_text-Emits : (s : Text) → Emits (emit_text s) (encode_text s)
unfolding emit_text encode_text
emit_text-Emits s = >>-Emits (emit-Emits (le 8 (length s))) (emit-Emits s)

pub store_at-Emits :
    {w : Writer} {bs : Text} (pre mem : Text)
    → Emits w bs
    → length bs ≤ length mem
    → store_at (length pre) w (pre ++ mem) ≡ some (pre ++ (bs ++ drop (length bs) mem))
unfolding store_at
store_at-Emits [] mem e h = rw (e.stores mem h)
store_at-Emits (p ∷ pre) mem e h = rw (store_at-Emits pre mem e h)

-- The same, in a buffer that holds `pre` already, as the calls in a row leave it.
pub store_at_after :
    {w : Writer} {bs : Text} (pre mem : Text)
    → Emits w bs
    → length pre + length bs ≤ length mem
    → store_at (length pre) w (pre ++ drop (length pre) mem)
      ≡ some ((pre ++ bs) ++ drop (length (pre ++ bs)) mem)
store_at_after {bs} pre mem e h =
    let fits : length bs ≤ length (drop (length pre) mem) =
      omega (arith, length-drop (length pre) mem) in
    rw (
      store_at-Emits pre (drop (length pre) mem) e fits,
      drop-drop (length pre) (length bs) mem,
      length-append pre bs,
      append_assoc,
    )

-- The reader consumes exactly `bs`, and yields `a`.
pub record Reads {ℓ} {A : Type ℓ} (r : Reader A) (bs : Text) (a : A) : Type ℓ where
  pub loads : (rest : Text) → r (bs ++ rest) ≡ some (a, rest)

pub >>=-Reads {ℓ κ} :
    {A : Type ℓ} {B : Type κ} {r : Reader A} (f : A → Reader B) {bs cs : Text} {a : A} {b : B}
    → Reads r bs a
    → Reads (f a) cs b
    → Reads (r >>= f) (bs ++ cs) b
unfolding ◌>>=◌
>>=-Reads {r} f {bs} {cs} hr hf = record {
  loads = λ rest. rw append_assoc (rw (hr.loads (cs ++ rest), ◌>>=◌) (hf.loads rest));
}

pub take_bytes-append : (bs rest : Text) → take_bytes (length bs) (bs ++ rest) ≡ some (bs, rest)
unfolding take_bytes
take_bytes-append [] rest = refl
take_bytes-append (b ∷ bs) rest = rw (take_bytes-append bs rest)

pub take_bytes-Reads : (bs : Text) → Reads (take_bytes (length bs)) bs bs
take_bytes-Reads bs = record { loads = take_bytes-append bs }

pub return-Reads {ℓ κ} :
    {A : Type ℓ} {B : Type κ} {r : Reader A} (g : A → B) {bs : Text} {a : A}
    → Reads r bs a
    → Reads (r >>= λ x. return (g x)) bs (g a)
unfolding return ◌>>=◌
return-Reads g hr = record { loads = λ rest. rw (hr.loads rest, ◌>>=◌) }

load-le : (k v : ℕ) (rest : Text) → v < 256 ^ k → load k (le k v ++ rest) ≡ some (v, rest)
unfolding load return
load-le k v rest h =
    let taken : take_bytes k (le k v ++ rest) ≡ some (le k v, rest) =
      rw length-le at (take_bytes-append (le k v) rest) in
    rw (taken, ◌>>=◌) (rw (le_value-le k v h))

pub load-Reads : (k v : ℕ) → v < 256 ^ k → Reads (load k) (le k v) v
load-Reads k v h = record { loads = λ rest. load-le k v rest h }

pub load_text-Reads : (s : Text) → length s < 2 ^ 64 → Reads load_text (encode_text s) s
unfolding load_text encode_text
load_text-Reads s h = >>=-Reads _ (load-Reads 8 (length s) h) (take_bytes-Reads s)

-- A load fails where the memory ends before it.
take_bytes_short : (n : ℕ) (mem : Text) → length mem < n → take_bytes n mem ≡ none
unfolding take_bytes
take_bytes_short zero mem h = absurd (omega arith)
take_bytes_short (suc n) [] h = refl
take_bytes_short (suc n) (m ∷ mem) h = rw (take_bytes_short n mem (omega arith))

-- So a text fails to load where fewer bytes follow than its length field says.
pub load_text_short :
    (n : ℕ) (rest : Text) → n < 2 ^ 64 → length rest < n → load_text (le 8 n ++ rest) ≡ none
unfolding load_text
load_text_short n rest fits short =
    rw (load-le 8 n rest fits, ◌>>=◌) (take_bytes_short n rest short)

-- A load behind `pre`.
pub load_at-Reads {ℓ} :
    {A : Type ℓ} {r : Reader A} {bs : Text} {a : A} (pre rest : Text)
    → Reads r bs a
    → load_at (length pre) r (pre ++ (bs ++ rest)) ≡ some a
unfolding load_at
load_at-Reads {bs} pre rest h =
    let inside : ltb (length (pre ++ (bs ++ rest))) (length pre) ≡ false =
      ground (arith, length-append pre (bs ++ rest)) in
    rw (inside, drop-append pre (bs ++ rest), h.loads rest)
