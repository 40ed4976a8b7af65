-- ===== src/Hci/Posting.antt =====
-- The 5-byte postings behind a header.
use callbook_rs.Prelude.{Bytes, List, [], length, take, ◌-◌, ◌∷◌}
use callbook_rs.Hci.Data.{HciPosting, from_be_bytes}

-- `chunks_exact(5)` with the body of the loop.
unfoldable pub chunk_postings : Bytes → List HciPosting
chunk_postings [] = []
chunk_postings (a ∷ []) = []
chunk_postings (a ∷ b ∷ []) = []
chunk_postings (a ∷ b ∷ c ∷ []) = []
chunk_postings (a ∷ b ∷ c ∷ d ∷ []) = []
chunk_postings (a ∷ b ∷ c ∷ d ∷ e ∷ rest) =
    record { dat_offset = from_be_bytes a b c d; position = e } ∷ chunk_postings rest

-- The postings that the visitor is called with; the last byte of a record is not read.
unfoldable pub visit_postings : Bytes → List HciPosting
unfolding chunk_postings
visit_postings bytes = chunk_postings (take (length bytes - 1) bytes)
