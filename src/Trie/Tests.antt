-- ===== src/Trie/Tests.antt =====
-- The theorem on tries on a few calls.
use zmq_cn_comment.Base.{◌≡◌, refl, List, [], ◌∷◌, some, arith}
use zmq_cn_comment.Trie.{start}
use zmq_cn_comment.Trie.Run.{
  Call, add_key, remove_key, check_data, answers, multiset_answers, answers-multiset_answers,
}

abbrev calls : List Call
calls = add_key (1 ∷ []) ∷ add_key (4 ∷ 7 ∷ []) ∷ check_data (1 ∷ 2 ∷ []) ∷ remove_key (1 ∷ []) ∷ []

answers-multiset_answers_example : answers calls start ≡ some (multiset_answers calls (λ k. 0))
answers-multiset_answers_example = answers-multiset_answers calls refl (omega arith)
