-- ===== src/Api.antt =====
-- apis/projectsesame/v1: the custom resources, as far as the processors read them.
pub mod Match
pub mod Status
pub mod Proxy
