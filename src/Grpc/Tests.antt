-- ===== src/Grpc/Tests.antt =====
-- The servicer of services/rag-service/src/rag/transport/grpc_server.py over a scripted service.
use rag_poc.Prelude.{ℕ, ◌≡◌, str, Bool, [], ◌∷◌, ltb, err}
use rag_poc.Query.{ask, ask_stream}
use rag_poc.Query.Messages.{IsRefused}
use rag_poc.Query.Tests.{hit, sample_ports, sample_settings}
use rag_poc.Grpc.{Abort, invalid_argument, serve_ask, serve_ask_stream}
use rag_poc.Grpc.Replies.{IsAnswered, IsStreamed, serve_ask-IsAnswered, serve_ask_stream-IsStreamed}

-- The client goes away after one message.
abbrev one_message : ℕ → Bool
one_message i = ltb i 1

serve_ask_stream-IsStreamed_example :
    IsStreamed
      (sample_ports (hit 2 ∷ []))
      sample_settings
      (str "why")
      []
      one_message
      (ask_stream (sample_ports (hit 2 ∷ [])) sample_settings (str "why") [] 0).0
      (serve_ask_stream (sample_ports (hit 2 ∷ [])) sample_settings one_message (str "why") [] 0).0
serve_ask_stream-IsStreamed_example =
    serve_ask_stream-IsStreamed (sample_ports (hit 2 ∷ [])) sample_settings (str "why") []
      one_message 0

serve_ask-IsAnswered_example :
    IsAnswered
      (sample_ports (hit 2 ∷ []))
      sample_settings
      (str " ")
      []
      (ask (sample_ports (hit 2 ∷ [])) sample_settings (str " ") [] 0).0
      (serve_ask (sample_ports (hit 2 ∷ [])) sample_settings (str " ") [] 0).0
    × (IsRefused (sample_ports (hit 2 ∷ [])) sample_settings (str " ") []
        → (a : Abort) × (serve_ask (sample_ports (hit 2 ∷ [])) sample_settings (str " ") [] 0
            ≡ (err a, 0))
          × (a.code ≡ invalid_argument))
serve_ask-IsAnswered_example =
    serve_ask-IsAnswered (sample_ports (hit 2 ∷ [])) sample_settings (str " ") [] 0
