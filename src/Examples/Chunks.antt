-- ===== src/Examples/Chunks.antt =====
-- A text of three characters in pieces of two.
use in_work_marketing_os_bac.Base.{◌==◌, some, List, [], ◌∷◌, ◌≡◌, refl}
use in_work_marketing_os_bac.Uploads.{strip, lstrip, rstrip}
use in_work_marketing_os_bac.Chunking.{
  Chunk, chunk, chunk_stripped, chunk_loop, window_end, soft_break, first_break, rfind, slice,
}
use in_work_marketing_os_bac.Chunking.Total.{AreChunks, chunk_total}

cut :
    chunk (λ c. c == 32) 2 1 (97 ∷ 98 ∷ 99 ∷ [])
    ≡ some (
        record { ordinal = 0; piece = 97 ∷ 98 ∷ [] }
        ∷ record { ordinal = 1; piece = 98 ∷ 99 ∷ [] }
        ∷ [])
unfolding chunk chunk_stripped chunk_loop window_end soft_break first_break rfind slice strip lstrip
    rstrip
cut = refl

chunk_total_example :
    (cs : List Chunk) × (chunk (λ c. c == 32) 2 1 (97 ∷ 98 ∷ 99 ∷ []) ≡ some cs) × AreChunks 2 0 cs
chunk_total_example = chunk_total (λ c. c == 32) 2 1 (97 ∷ 98 ∷ 99 ∷ [])
