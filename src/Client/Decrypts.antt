-- ===== src/Client/Decrypts.antt =====
-- testclient.c: the test cases that decrypt, run against a server that has the key.
use keyless.Prelude.{◌∙◌, ◌∙◌}
use keyless.Protocol.Op
use keyless.KeyStore.{KeyStore}
use keyless.Client.Passes.{Passes}
use keyless.Client.HasKey.{HasKey}
