-- ===== src/Auth/Credentials.antt =====
-- `config_getDigestAuthCredential` of src/fmconfig.c: the credential of a user.
