-- ===== src/Client/Transfer/Joining.antt =====
-- The dict of chunks that the client fills, and what it joins to.
use cisc468_python.Base.{
  ℕ, zero, suc, ◌+◌, ◌≤◌, ◌<◌, ◌==◌, Bytes, if◌then◌else◌, [], ◌∷◌, ok, ◌≡◌, refl, Bool-cases, inl,
  inr, ◌∙◌, arith,
}
use cisc468_python.Server.Transfer.{chunk_at}
use cisc468_python.Server.Transfer.Slices.{chunks_from}
use cisc468_python.Client.Transfer.{Chunks, put_chunk, chunk_with, join_chunks}

-- The dict once so many chunks, from one of them on, were put in order.
unfoldable pub put_all : ℕ → ℕ → Bytes → Chunks → Chunks
put_all zero i content d = d
put_all (suc left) i content d = put_all left (i + 1) content (put_chunk i (chunk_at i content) d)

chunk_with-put_chunk :
    (i j : ℕ) (plain : Bytes) (d : Chunks)
    → chunk_with j (put_chunk i plain d) ≡ (if i == j then ok plain else chunk_with j d)
unfolding chunk_with put_chunk
chunk_with-put_chunk i j plain [] = ground arith
chunk_with-put_chunk i j plain ((k, old) ∷ d) = ground (arith, chunk_with-put_chunk i j plain d)

chunk_before :
    (left i j : ℕ) (content : Bytes) (d : Chunks)
    → j < i
    → chunk_with j (put_all left i content d) ≡ chunk_with j d
unfolding put_all
chunk_before zero i j content d h = refl
chunk_before (suc left) i j content d h =
    chunk_before left (i + 1) j content (put_chunk i (chunk_at i content) d) (omega arith)
    ∙ ground (arith, chunk_with-put_chunk i j (chunk_at i content) d)

chunk_among :
    (left i j : ℕ) (content : Bytes) (d : Chunks)
    → i ≤ j
    → j < i + left
    → chunk_with j (put_all left i content d) ≡ ok (chunk_at j content)
unfolding put_all
chunk_among zero i j content d low high = absurd (omega arith)
chunk_among (suc left) i j content d low high = elim (Bool-cases (i == j)) [
  | inl same ↦
      chunk_before left (i + 1) j content (put_chunk i (chunk_at i content) d) (ground arith)
      ∙ ground (arith, chunk_with-put_chunk i j (chunk_at i content) d)
  | inr differ ↦
      chunk_among left (i + 1) j content (put_chunk i (chunk_at i content) d) (ground arith)
        (omega arith)
]

join_from :
    (left i : ℕ) (content : Bytes) (d : Chunks)
    → ((j : ℕ) → i ≤ j → j < i + left → chunk_with j d ≡ ok (chunk_at j content))
    → join_chunks left i d ≡ ok (chunks_from left i content)
unfolding join_chunks chunks_from
join_from zero i content d h = refl
join_from (suc left) i content d h =
    rw
      (
        h i (omega arith) (omega arith),
        join_from left (i + 1) content d (λ j low high. h j (omega arith) (omega arith)),
      )
      refl

-- The chunks of a transfer, put into the dict one after the other, join to the content.
pub join_chunks-put_all :
    (left : ℕ) (content : Bytes)
    → join_chunks left 0 (put_all left 0 content []) ≡ ok (chunks_from left 0 content)
join_chunks-put_all left content =
    join_from left 0 content (put_all left 0 content [])
      (λ j low high. chunk_among left 0 j content [] low high)
