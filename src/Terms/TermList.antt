-- ===== src/Terms/TermList.antt =====
-- apps/web/src/utils/termList.ts: the conversion between the stored text and the list of terms.
-- `lower` is `toLowerCase`, whose Unicode tables are not part of the repository.
use teleyes.Common.{Bool, true, false, not, ◌||◌, List, [], ◌∷◌, ◌++◌, if◌then◌else◌, keep, any}
use teleyes.Text.{Text, trim, split, join_comma, text_eq}

abbrev pub is_empty : Text → Bool
is_empty [] = true
is_empty (c ∷ cs) = false

-- `seen.has(key)`
unfoldable pub has : Text → List Text → Bool
has key seen = any (text_eq key) seen

module _ (lower : Text → Text) where
  -- The loop of `parseTermList`: the set of the keys seen and the parts that are left.
  unfoldable pub terms_from : List Text → List Text → List Text
  terms_from seen [] = []
  terms_from seen (part ∷ parts) =
      let skipped = terms_from seen parts in
      let added = trim part ∷ terms_from (lower (trim part) ∷ seen) parts in
      if is_empty (trim part) || has (lower (trim part)) seen then skipped else added

  unfoldable pub parse_term_list : Text → List Text
  parse_term_list raw = terms_from [] (split b',' raw)

  unfoldable pub serialize_term_list : List Text → Text
  serialize_term_list terms = join_comma terms

  unfoldable pub add_terms : Text → Text → Text
  add_terms current additions = serialize_term_list (parse_term_list (current ++ b',' ∷ additions))

  unfoldable pub remove_term : Text → Text → Text
  remove_term current term =
      serialize_term_list
        (keep (λ candidate. not (text_eq (lower candidate) (lower term))) (parse_term_list current))
