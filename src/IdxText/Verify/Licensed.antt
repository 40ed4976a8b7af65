-- ===== src/IdxText/Verify/Licensed.antt =====
-- `open_with_stride`, `verify` and the searches together, on the file that was opened.
use callbook_rs.Prelude.{
  All, Bytes, List, [], filter, length, subst, sym, true, ℕ, ◌++◌, ◌<◌, ◌^◌, ◌∷◌, ◌≡◌,
}
use callbook_rs.IdxText.Build.{iter}
use callbook_rs.IdxText.Build.Lines.{NoCrlf, joined}
use callbook_rs.IdxText.Build.Entries.{ShortLine}
use callbook_rs.IdxText.Build.Opened.{opened, text_entries-iter}
use callbook_rs.IdxText.Find.{find_callsign_all, head?, to_list}
use callbook_rs.IdxText.Find.Sorted.{KeysSorted, has_key, has_prefix}
use callbook_rs.IdxText.Find.Laws.{find_callsign_all-filter}
use callbook_rs.IdxText.Verify.{verify, is_clean}
use callbook_rs.IdxText.Verify.Clean.{verify_clean}

-- On the index of a file below 4 GiB with lines shorter than 2^16 bytes, if the report of `verify`
-- is clean then `find_callsign_all` returns, of the entries that the iterator yields, the first one
-- whose key is the bare callsign and all those whose key starts with the callsign and a colon.
pub find_callsign_all-verify :
    (stride : ℕ) (ls : List Bytes) (tail callsign : Bytes)
    → All NoCrlf ls
    → NoCrlf tail
    → length (joined ls tail) < 2 ^ 32
    → All ShortLine ls
    → is_clean (verify (opened stride ls tail)) ≡ true
    → find_callsign_all (opened stride ls tail) callsign
      ≡ to_list (head? (filter (has_key callsign) (iter (opened stride ls tail))))
        ++ filter (has_prefix (callsign ++ (b':' ∷ []))) (iter (opened stride ls tail))
find_callsign_all-verify stride ls tail callsign clean end small short report =
    let idx = opened stride ls tail in
    let same = text_entries-iter stride ls tail clean end small short in
    let sorted = (verify_clean idx report).0 in
    subst
      (λ xs.
        find_callsign_all idx callsign
        ≡ to_list (head? (filter (has_key callsign) xs))
          ++ filter (has_prefix (callsign ++ (b':' ∷ []))) xs)
      same (find_callsign_all-filter idx (subst KeysSorted (sym same) sorted) callsign)
