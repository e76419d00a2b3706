-- ===== src/App/RequestRouter/Examples.antt =====
-- A device with a token, and requests without it and with it.
use stackchan_atoms3r.Base.{
  ◌<◌, true, All-replicate, ◌≡◌, ◌≢◌, false, [], ◌∷◌, ap, Bytes, codes, replicate, length, arith,
  IsBytes,
}
use stackchan_atoms3r.Domain.AccessToken.{from_text}
use stackchan_atoms3r.Domain.Protocol.{no_error}
use stackchan_atoms3r.Domain.JsonWriter.{null_value}
use stackchan_atoms3r.App.ScanParams.{ScanParams}
use stackchan_atoms3r.App.CommandRegistry.{CommandSpec, Handler}
use stackchan_atoms3r.App.RequestRouter.{Registry, route}
use stackchan_atoms3r.App.RequestRouter.Answers.{route-unauthorized}

abbrev token_text : Bytes
token_text = replicate 32 b'a'

abbrev short_token : Bytes
short_token = codes "no"

token_text-IsBytes : IsBytes token_text
token_text-IsBytes = All-replicate (λ c. c < 256) 32 b'a' (omega arith)

short_token-IsBytes : IsBytes short_token
short_token-IsBytes = (omega arith, (omega arith, tt))

abbrev no_commands : Registry
no_commands = []

-- One command, that answers null.
abbrev say : Handler ScanParams
say params payload = (null_value payload, no_error)

abbrev say_spec : CommandSpec
say_spec = record {
  name = codes "say";
  is_async = false;
  params = [];
  available = true;
  unavailable_reason = [];
}

abbrev one_command : Registry
one_command = record { spec = say_spec; handler = say } ∷ []

abbrev say_request : Bytes
say_request = codes "{\"id\":\"7\",\"name\":\"say\"}"

short_token-token_text : short_token ≢ token_text
short_token-token_text h = absurd (omega (arith, ap length h))

route-unauthorized_example :
    route one_command (from_text token_text) short_token say_request
    ≡ route no_commands (from_text token_text) short_token []
route-unauthorized_example =
    route-unauthorized token_text short_token say_request [] one_command no_commands
      token_text-IsBytes short_token-IsBytes short_token-token_text
