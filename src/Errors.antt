-- ===== src/Errors.antt =====
-- includes/ziti/errors.h and library/errors.c: the status codes and their texts.

-- The negative codes; `ZITI_OK` is the `ok` of a `Result`.
pub data ZitiError : Type 0 where
  config_not_found jwt_not_found jwt_invalid jwt_invalid_format : ZitiError
  pkcs7_asn1_parsing_failed jwt_signing_alg_unsupported jwt_verification_failed : ZitiError
  enrollment_method_unsupported enrollment_certificate_required key_generation_failed : ZitiError
  key_load_failed csr_generation_failed invalid_config authentication_failed : ZitiError
  not_authorized controller_unavailable gateway_unavailable service_unavailable eof : ZitiError
  timeout connabort invalid_state crypto_fail conn_closed invalid_posture mfa_exists : ZitiError
  mfa_invalid_token mfa_not_enrolled not_found disabled partially_authenticated : ZitiError
  invalid_authenticator_type invalid_authenticator_cert invalid_cert_key_pair : ZitiError
  cert_in_use cert_failed_validation missing_cert_claim alloc_failed : ZitiError
  external_login_required wtf : ZitiError
