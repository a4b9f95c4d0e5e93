-- ===== src/Response/Tests.antt =====
-- A run of nats-micro/src/response.rs.
use nats_micro.Response.{process_request, ErrorReply, service_error_headers, Writers}
use nats_micro.Prelude.{Str, err, refl, bytes, some, [], ◌∷◌, ◌≡◌}
use nats_micro.Encryption.Toy.{list_headers}

abbrev writers : Writers Str
writers = record {
  wire_error = λ code kind message id. some message;
  error_response = λ error. some error.message;
  to_string = λ n. n ∷ [];
}

abbrev refusal : ErrorReply
refusal = record {
  code = 404;
  kind = bytes "NOT_FOUND";
  message = bytes "no such order";
  body = bytes "{}";
  request_id = some (bytes "r-1");
}

sent_error :
    process_request list_headers writers (err refusal)
    ≡ (bytes "{}", some (service_error_headers list_headers writers refusal))
unfolding process_request
sent_error = refl
