-- ===== src/Errors.antt =====
-- rust-proxy/src/vojo/app_error.rs: an AppError is its message; the conversions that `?` applies
-- to the errors of libraries put a text before the library's message.
use silverwind.Prelude.{String, ◌⧺◌}

-- The types that an AppError is made from.
pub data Cause : Type 0 where
  infallible pem status : Cause
  decode descriptor transport parse_int task try_init appender elapsed header_value : Cause
  client uri uri_parts ip_parse system_time dns_name certificate acme regex_syntax : Cause
  addr_parse h2 hyper axum header_text yaml io url_parse tls http_message config_lock : Cause
  limiter_lock breaker_lock json : Cause

-- `AppError::from` of an error of the cause with its own message.
unfoldable pub from : Cause → String → String
from infallible message = "Infallible error"
from pem message = "PEM error: " ⧺ message
from status message = "Status error: " ⧺ message
from decode message = "Protobuf decode error: " ⧺ message
from descriptor message = "Descriptor error: " ⧺ message
from transport message = "Tonic transport error: " ⧺ message
from parse_int message = "Parse int error: " ⧺ message
from task message = "Task error: " ⧺ message
from try_init message = "Tracing subscriber initialization error: " ⧺ message
from appender message = "Rolling file appender initialization error: " ⧺ message
from elapsed message = "Timeout error: " ⧺ message
from header_value message = "Invalid header value: " ⧺ message
from client message = "Hyper client error: " ⧺ message
from uri message = "Invalid URI: " ⧺ message
from uri_parts message = "Invalid URI parts: " ⧺ message
from ip_parse message = "IP address parse error: " ⧺ message
from system_time message = "System time error: " ⧺ message
from dns_name message = "Invalid DNS name error: " ⧺ message
from certificate message = "Certificate generation error: " ⧺ message
from acme message = "Instant ACME error: " ⧺ message
from regex_syntax message = "Regex error: " ⧺ message
from addr_parse message = "Address parse error: " ⧺ message
from h2 message = "H2 error: " ⧺ message
from hyper message = "Hyper error: " ⧺ message
from axum message = "Axum error: " ⧺ message
from header_text message = "Header to string error: " ⧺ message
from yaml message = "YAML error: " ⧺ message
from io message = "IO error: " ⧺ message
from url_parse message = "URL parse error: " ⧺ message
from tls message = "TLS error: " ⧺ message
from http_message message = "HTTP error: " ⧺ message
from config_lock message = "Mutex error: " ⧺ message
from limiter_lock message = "Rate limit mutex error: " ⧺ message
from breaker_lock message = "Circuit breaker mutex error: " ⧺ message
from json message = "JSON error: " ⧺ message

-- The text of an AppError, as Display gives it.
unfoldable pub to_string : String → String
to_string message = "Error is: " ⧺ message
