-- ===== src/Http/Server/Tests.antt =====
-- The theorem on the life of the HTTP server with a small file system.
use geo_ns_core.Common.{refl, true, none, some, arith}
use geo_ns_core.Text.{codes}
use geo_ns_core.Io.{System, directory, is_directory_exists, is_absolute_path}
use geo_ns_core.Socket.Opening.{Answers, obtained}
use geo_ns_core.Http.Server.{create_http_server, public_dir_path}
use geo_ns_core.Http.Server.Life.{IsCreated, create_http_server-IsCreated}

abbrev system : System
system = record {
  kind = λ path. directory;
  content = λ path. none;
  entries = λ path. none;
  mime_type = λ path. none;
  has_memory = λ n. true;
}

-- The answers to the calls that open the server on the descriptor 4.
abbrev answers : Answers
answers = record {
  has_memory = true;
  socket = some 4;
  address_valid = true;
  bound = true;
  listening = true;
}

create_http_server-IsCreated_example : IsCreated system 4 (obtained 4 (some 4)) (
    create_http_server system
      (codes "/geons")
      true
      answers
      (codes "0.0.0.0")
      8000
      (some (codes "/app/www")))
unfolding public_dir_path is_absolute_path is_directory_exists
create_http_server-IsCreated_example =
    create_http_server-IsCreated system (codes "/geons") 4 (some 4) true true true (codes "0.0.0.0")
      8000 b'/' (codes "app/www") (omega arith) refl
