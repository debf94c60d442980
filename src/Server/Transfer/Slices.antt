-- ===== src/Server/Transfer/Slices.antt =====
-- The chunks of a file, put together.
use cisc468_python.Base.{
  ℕ, zero, suc, ◌+◌, ◌*◌, ◌≤◌, Bytes, take, drop, take_add, drop_add, take_all, length, [], ◌++◌,
  ◌≡◌, refl, ap, ◌∙◌, sym, arith,
}
use cisc468_python.Crypto.Chunk.{chunk_size}
use cisc468_python.Server.Transfer.{total_chunks_of, chunk_at}

zero_mul : (n : ℕ) → 0 * n ≡ 0
zero_mul n = omega arith

-- So many slices of one size, from one of them on, one behind the other.
slices : ℕ → ℕ → ℕ → Bytes → Bytes
slices size zero i content = []
slices size (suc left) i content =
    take size (drop (i * size) content) ++ slices size left (i + 1) content

slices_lem :
    (size left i : ℕ) (content : Bytes)
    → slices size left i content ≡ take (left * size) (drop (i * size) content)
unfolding slices
slices_lem size zero i content = rw (zero_mul size) refl
slices_lem size (suc left) i content =
    let next : (i + 1) * size ≡ i * size + size = grind arith in
    let more : suc left * size ≡ size + left * size = grind arith in
    rw (slices_lem size left (i + 1) content, next, more, drop_add (i * size) size content)
      (sym (take_add size (left * size) (drop (i * size) content)))

-- So many chunks of a content, from one of them on, one behind the other.
unfoldable pub chunks_from : ℕ → ℕ → Bytes → Bytes
chunks_from zero i content = []
chunks_from (suc left) i content = chunk_at i content ++ chunks_from left (i + 1) content

chunks_from-slices :
    (left i : ℕ) (content : Bytes) → chunks_from left i content ≡ slices chunk_size left i content
unfolding chunks_from slices chunk_at
chunks_from-slices zero i content = refl
chunks_from-slices (suc left) i content =
    ap (λ t. take chunk_size (drop (i * chunk_size) content) ++ t)
      (chunks_from-slices left (i + 1) content)

enough_chunks : (content : Bytes) → length content ≤ total_chunks_of content * chunk_size
unfolding total_chunks_of
enough_chunks content = omega arith

-- The chunks of a transfer, all of them in order, are the content cut in pieces: nothing is lost
-- or doubled, for a content of any length.
pub chunks_from-total_chunks_of :
    (content : Bytes) → chunks_from (total_chunks_of content) 0 content ≡ content
chunks_from-total_chunks_of content =
    chunks_from-slices (total_chunks_of content) 0 content
    ∙ slices_lem chunk_size (total_chunks_of content) 0 content
    ∙ take_all (total_chunks_of content * chunk_size) content (enough_chunks content)
