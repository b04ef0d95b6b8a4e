-- ===== src/Channel/Pachca/Client.antt =====
-- internal/channel/pachca/client.go and channel.go. What the HTTP client, the JSON encoder and the
-- URL parser of the standard library return is an argument.
use alertmanager_webhook_rel.Base.{
  Bool, Option, Result, Text, err, fail_if, if◌then◌else◌, leb, ltb, none, not, ok, some, str, take,
  trim_slashes, ℕ, ℤ, ◌++◌, ◌||◌, ◌>>=◌, ◌>>◌,
}
use alertmanager_webhook_rel.Alerts.{Instant}
use alertmanager_webhook_rel.Notify.{Notification}
use alertmanager_webhook_rel.Channel.Pachca.Format.{format_notification}

abbrev pub max_error_body_size : ℕ
max_error_body_size = 8192

abbrev pub messages_path : Text
messages_path = str "/api/shared/v1/messages"

pub record Client : Type 0 where
  pub base_url : Text
  pub token : Text

unfoldable pub new_client : Text → Text → Client
new_client base_url token = record { base_url = trim_slashes base_url; token = token }

-- `messagePayload` with its `messageBody`.
pub record MessageBody : Type 0 where
  pub entity_type : Text
  pub entity_id : ℤ
  pub content : Text

-- A POST request.
pub record Request : Type 0 where
  pub url : Text
  pub authorization : Text
  pub content_type : Text
  pub body : Text

-- What `Do` returns: an error, or a status code and the response's body.
pub data Reply : Type 0 where
  no_reply : Text → Reply
  reply : ℕ → Text → Reply

-- One constructor for each `fmt.Errorf`.
pub data ClientError : Type 0 where
  marshal_failed create_failed : ClientError
  send_failed : Text → ClientError
  api_error : ℕ → Text → ClientError

-- `json.Marshal`, and whether `NewRequestWithContext` takes a URL.
pub record Http : Type 0 where
  pub marshal : MessageBody → Option Text
  pub takes_url : Text → Bool

abbrev pub message_of : ℤ → Text → MessageBody
message_of chat_id content = record {
  entity_type = str "discussion";
  entity_id = chat_id;
  content = content;
}

abbrev marshalled : Option Text → Result ClientError Text
marshalled none = err marshal_failed
marshalled (some body) = ok body

-- The request that `SendMessage` makes.
unfoldable pub request_of : Http → Client → ℤ → Text → Result ClientError Request
request_of http c chat_id content = do
  body ← marshalled (http.marshal (message_of chat_id content))
  fail_if (not (http.takes_url (c.base_url ++ messages_path))) create_failed
  ok (record {
    url = c.base_url ++ messages_path;
    authorization = str "Bearer " ++ c.token;
    content_type = str "application/json";
    body = body;
  })

-- The part of the body that is read for diagnostics.
unfoldable pub judge : Reply → Result ClientError (Unit {0})
judge (no_reply e) = err (send_failed e)
judge (reply code body) =
    if ltb code 200 || leb 300 code
    then err (api_error code (take max_error_body_size body))
    else ok tt

-- `Do` is called with the request, if there is one.
unfoldable pub send_message :
    Http → Client → ℤ → Text → (Request → Reply) → Result ClientError (Unit {0})
unfolding request_of judge
send_message http c chat_id content exchange = do
  request ← request_of http c chat_id content
  judge (exchange request)

-- `Channel`
pub record PachcaChannel : Type 0 where
  pub client : Client
  pub chat_id : ℤ

unfoldable pub new_channel : Text → Text → ℤ → PachcaChannel
unfolding new_client
new_channel base_url token chat_id = record {
  client = new_client base_url token;
  chat_id = chat_id;
}

unfoldable pub send :
    Http
    → (Instant → Text)
    → PachcaChannel
    → Notification
    → (Request → Reply)
    → Result ClientError (Unit {0})
send http format_time ch n exchange =
    send_message http ch.client ch.chat_id (format_notification format_time n) exchange
