-- ===== src/Ingress/Http/Tests.antt =====

