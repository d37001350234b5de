-- ===== src/Server/Settings.antt =====
-- src/kkmha/server_strings.h: the messages of the handlers.
use kkm_https_adapter.Base.{Bytes, utf8}

unfoldable pub bad_request_text : Bytes
bad_request_text = utf8 "Некорректный запрос"

unfoldable pub method_not_allowed_text : Bytes
method_not_allowed_text = utf8 "Невозможно выполнить данный запрос"

unfoldable pub forbidden_text : Bytes
forbidden_text = utf8 "Сбой авторизации"

unfoldable pub not_found_text : Bytes
not_found_text = utf8 "Документ не найден"

unfoldable pub bad_path_text : Bytes
bad_path_text = utf8 "Некорректный путь"

unfoldable pub invalid_content_type_text : Bytes
invalid_content_type_text = utf8 "Заголовок 'Content-Type' отсутствует или некорректен"

unfoldable pub invalid_key_text : Bytes
invalid_key_text = utf8 "Заголовок 'X-Idempotency-Key' отсутствует или некорректен"
