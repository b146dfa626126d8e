-- ===== src/HttpProxy/Resent.antt =====
-- src/main.cpp: HttpProxy::received behind the end of the Remote.
use epoller.HttpProxy.Client.{Client}
