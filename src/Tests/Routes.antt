-- ===== src/Tests/Routes.antt =====
-- A request for a file by a browser that has an old copy of it.
use web_terminal.Prelude.{◌≡◌, refl, true, false, [], ◌∷◌, Bytes}
use web_terminal.Prelude.Int.{pos}
use web_terminal.Prelude.Text.{codes}
use web_terminal.Config.{Config}
use web_terminal.Store.{Store}
use web_terminal.Routes.{Request, Handler, answer, bytes, handle, del_header}
use web_terminal.Routes.Fresh.{SameButValidators, validators_ignored}

abbrev cfg : Config
cfg = record {
  host = codes "127.0.0.1";
  port = pos 7777;
  files_root = codes "/srv";
  static_dir = codes "web";
  no_cache = true;
  idle_timeout = pos 0;
  close_timeout = pos 0;
  allowed_origins = [];
  appearance = record { theme = []; font = []; font_size = pos 15; alpha = false };
}

abbrev store : Store
store = record {
  sessions = [];
  default_command = [];
  files_root = [];
  idle_grace = pos 0;
  close_grace = pos 0;
}

-- A file server that answers 304 to a request with validators.
abbrev files : Bytes → Handler
files dir r hs = answer (record {
  status = elim r.headers [ [] ↦ 200 | h ∷ rest ↦ 304 ];
  headers = hs;
  body = bytes dir;
})

abbrev again : Request
again = record {
  method = codes "GET";
  path = codes "/app.js";
  headers = (codes "If-None-Match", codes "1") ∷ [];
}

abbrev first_time : Request
first_time = record { method = codes "GET"; path = codes "/app.js"; headers = [] }

alike : SameButValidators again first_time
unfolding del_header
alike = (refl, refl, refl)

validators_ignored_example : handle files cfg store again [] ≡ handle files cfg store first_time []
validators_ignored_example =
    validators_ignored files cfg store again first_time [] refl (λ e. cc) alike
