-- ===== src/DurableStore/Laws.antt =====
-- What a crash keeps.
use sim_kv.Prelude.{
  ℕ, zero, suc, ◌-◌, ◌≤◌, ◌≡◌, refl, ap, ◌∙◌, List, [], ◌∷◌, ◌++◌, length, take, replicate, arith,
  append-nil, length-append, length-take, take-of-length-le, leb, true,
}
use sim_kv.Types.{Bytes}
use sim_kv.DurableStore.{DurableStore, append, flush, crash, read_durable, read_all, truncate_to}

-- The flushed prefix lies inside the content.
pub record IsValid (d : DurableStore) : Type 0 where
  pub within : d.flushed_end ≤ length d.content

pub append-IsValid : (bs : Bytes) {d : DurableStore} → IsValid d → IsValid (append bs d)
unfolding append
append-IsValid bs {d} v = omega (arith, length-append d.content bs)

pub flush-IsValid : (d : DurableStore) → IsValid (flush d)
unfolding flush
flush-IsValid d = omega arith

length-replicate {ℓ} : {A : Type ℓ} (n : ℕ) (a : A) → length (replicate n a) ≡ n
length-replicate zero a = refl
length-replicate (suc n) a = ap suc (length-replicate n a)

length-resize : (n : ℕ) (bs : Bytes) → length (take n bs ++ replicate (n - length bs) 0) ≡ n
length-resize n bs = omega (
  arith,
  length-append (take n bs) (replicate (n - length bs) 0),
  length-take n bs,
  length-replicate {0} {A = ℕ} (n - length bs) 0,
)

pub crash-IsValid : (d : DurableStore) → IsValid (crash d)
unfolding crash
crash-IsValid d = omega (arith, length-resize d.flushed_end d.content)

pub truncate_to-IsValid : (n : ℕ) {d : DurableStore} → IsValid d → IsValid (truncate_to n d)
unfolding truncate_to
truncate_to-IsValid n {d} v = ground (arith, length-resize n d.content)

pub take-append_left {ℓ} :
    {A : Type ℓ} (n : ℕ) (xs ys : List A) → n ≤ length xs → take n (xs ++ ys) ≡ take n xs
take-append_left zero xs ys h = refl
take-append_left (suc n) [] ys h = absurd (omega arith)
take-append_left (suc n) (x ∷ xs) ys h = ap (λ t. x ∷ t) (take-append_left n xs ys (omega arith))

sub-eq_zero : {m n : ℕ} → m ≤ n → m - n ≡ 0
sub-eq_zero h = omega arith

-- A crash leaves exactly the flushed bytes.
pub read_all-crash : (d : DurableStore) → IsValid d → read_all (crash d) ≡ read_durable d
unfolding read_all crash read_durable
read_all-crash d v = rw (sub-eq_zero v.within) (append-nil (take d.flushed_end d.content))

-- The durable bytes are the same after a crash.
pub read_durable-crash : (d : DurableStore) → IsValid d → read_durable (crash d) ≡ read_durable d
unfolding read_all crash read_durable
read_durable-crash d v =
    ap (take d.flushed_end) (read_all-crash d v)
    ∙ take-of-length-le d.flushed_end (take d.flushed_end d.content)
        (omega (arith, length-take d.flushed_end d.content))

-- What is appended after the last flush does not show in the durable bytes.
pub read_durable-append :
    (bs : Bytes) (d : DurableStore) → IsValid d → read_durable (append bs d) ≡ read_durable d
unfolding read_durable append
read_durable-append bs d v = take-append_left d.flushed_end d.content bs v.within

pub read_durable-flush : (d : DurableStore) → read_durable (flush d) ≡ d.content
unfolding read_durable flush
read_durable-flush d = take-of-length-le (length d.content) d.content (omega arith)

zero_le : (n : ℕ) → 0 ≤ n
zero_le n = omega arith

zero_leb : (n : ℕ) → leb 0 n ≡ true
zero_leb n = ground arith

-- Truncating to nothing, appending and flushing replaces the durable bytes by `bs`, whatever stood
-- there: the write sequence of RaftNode::persist and RaftNode::save_snapshot.
pub read_durable_rewrite :
    (bs : Bytes) (d : DurableStore) → read_durable (flush (append bs (truncate_to 0 d))) ≡ bs
unfolding append truncate_to
read_durable_rewrite bs d =
    read_durable-flush (append bs (truncate_to 0 d))
    ∙ rw (zero_leb (length d.content), sub-eq_zero (zero_le (length d.content)))
