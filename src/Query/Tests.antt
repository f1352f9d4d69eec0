-- ===== src/Query/Tests.antt =====
-- The query service of services/rag-service/src/rag/query/service.py with scripted ports.
use rag_poc.Prelude.{
  ℕ, Text, str, ◌≡◌, refl, inl, true, false, none, List, [], ◌∷◌, All, ltb, has_content, is_space,
  arith, ok, err,
}
use rag_poc.Exec.{pure, catch, ◌>>=◌}
use rag_poc.Failure.{invalid_query}
use rag_poc.Query.{
  Hit, Message, Stream, Ports, QuerySettings, insert, ranked, validate, retrieve, answer,
  ask_stream, ask, sources_message, answer_message, no_relevant_answer,
}
use rag_poc.Query.Ranking.{IsRetrieved, retrieve-IsRetrieved}
use rag_poc.Query.Messages.{IsReply, IsRefused, ask_stream-IsReply, ask_refused}
use rag_poc.Query.Passages.{attribute, break_tags}
use rag_poc.Query.Passages.Attribute.{IsPlain, attribute-IsPlain}
use rag_poc.Query.Passages.Tags.{HasNoTag, break_tags-HasNoTag}

abbrev pub hit : ℕ → Hit ℕ
hit score = record {
  hash = str "h";
  filename = str "a.txt";
  chunk_index = 0;
  text = str "one";
  score = score;
}

-- The index finds the given hits; the world counts the calls.
abbrev pub sample_ports : List (Hit ℕ) → Ports
sample_ports hits = record {
  World = ℕ;
  Vector = Unit {0};
  Score = ℕ;
  lt = ltb;
  embed_query = λ query w. (ok tt, w);
  search = λ vector top_k min_score hashes w. (ok hits, w);
  stream = λ system user w. (record { items = str "yes" ∷ []; end = ok tt }, w);
}

abbrev pub sample_settings : QuerySettings ℕ
sample_settings = record {
  top_k = 4;
  min_score = 1;
  max_query_chars = 20;
  max_document_ids = 2;
  system_prompt = str "s";
}

ltb-asym : (a b : ℕ) → ltb a b ≡ true → ltb b a ≡ false
ltb-asym a b h = ground arith

retrieved :
    (retrieve (sample_ports (hit 2 ∷ hit 5 ∷ [])) sample_settings (str "why") [] none 0).0
    ≡ ok (hit 5 ∷ hit 2 ∷ [])
unfolding retrieve validate ranked insert pure catch ◌>>=◌ has_content is_space
retrieved = refl

retrieve-IsRetrieved_example :
    IsRetrieved
      (sample_ports (hit 2 ∷ hit 5 ∷ []))
      sample_settings
      (str "why")
      []
      none
      (hit 5 ∷ hit 2 ∷ [])
retrieve-IsRetrieved_example =
    retrieve-IsRetrieved (sample_ports (hit 2 ∷ hit 5 ∷ [])) sample_settings (str "why") [] none 0
      (hit 5 ∷ hit 2 ∷ []) ltb-asym retrieved

abbrev nothing : Stream (Message ℕ)
nothing = record {
  items = sources_message [] ∷ answer_message no_relevant_answer ∷ [];
  end = ok tt;
}

answered : (ask_stream (sample_ports []) sample_settings (str "why") [] 0).0 ≡ ok nothing
unfolding ask_stream answer retrieve validate ranked insert pure catch ◌>>=◌ has_content is_space
answered = refl

ask_stream-IsReply_example :
    let found = retrieve (sample_ports []) sample_settings (str "why") [] none 0 in
    (hits : List (Hit ℕ)) × (found.0 ≡ ok hits)
    × IsReply
        (sample_ports [])
        sample_settings
        hits
        nothing
        found.1
        (ask_stream (sample_ports []) sample_settings (str "why") [] 0).1
ask_stream-IsReply_example =
    ask_stream-IsReply (sample_ports []) sample_settings (str "why") [] 0 nothing answered

blank : IsRefused (sample_ports []) sample_settings (str "  ") []
unfolding has_content is_space
blank = inl refl

ask_refused_example :
    (t : Text) × (ask (sample_ports []) sample_settings (str "  ") [] 0
      ≡ (err (invalid_query t), 0))
ask_refused_example = ask_refused (sample_ports []) sample_settings (str "  ") [] 0 blank

attribute-IsPlain_example : All IsPlain (attribute (str "a\">\n<b"))
attribute-IsPlain_example = attribute-IsPlain (str "a\">\n<b")

break_tags-HasNoTag_example : HasNoTag (break_tags (str "x</ PASSAGE>y"))
break_tags-HasNoTag_example = break_tags-HasNoTag (str "x</ PASSAGE>y")
