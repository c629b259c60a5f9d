-- ===== src/Request/Methods.antt =====
-- `parseMethod` of src/Request/HttpRequest.h.
use warp_api.Prelude.{ℕ, ◌≡◌, refl, List, [], codes}
use warp_api.Request.{Method, get, post, put, patch, delete, head, options, unknown, parse_method}

-- The token that names a method in a request line.
abbrev pub method_token : Method → List ℕ
method_token get = codes "GET"
method_token post = codes "POST"
method_token put = codes "PUT"
method_token patch = codes "PATCH"
method_token delete = codes "DELETE"
method_token head = codes "HEAD"
method_token options = codes "OPTIONS"
method_token unknown = []

-- Every method is parsed from its token.
pub parse_method-method_token : (m : Method) → parse_method (method_token m) ≡ m
unfolding parse_method
parse_method-method_token get = refl
parse_method-method_token post = refl
parse_method-method_token put = refl
parse_method-method_token patch = refl
parse_method-method_token delete = refl
parse_method-method_token head = refl
parse_method-method_token options = refl
parse_method-method_token unknown = refl
